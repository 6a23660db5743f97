-- ===== src/VByte/Encode.antt =====
-- What the encoders of vbyte.rs write, against a description of the format.
use native.Mathlib.Numerals.{towards_suc}
use mathlib.Core.List.{append_assoc, append-nil}
use tdb_succinct_wasm.Base.{
  ℕ, zero, suc, ◌+◌, ◌-◌, ◌*◌, ◌/◌, ◌%◌, ◌^◌, ◌≤◌, ◌<◌, ◌≡◌, refl, ap, ◌∙◌, inl, inr, none, some,
  List, [], ◌∷◌, ◌++◌, ltb, ◌==◌, if◌then◌else◌, length, set, drop, replicate, length-append,
  length-replicate, done, Bool-cases, arith,
}
use tdb_succinct_wasm.Bits.Ext.{bit_or-add}
use tdb_succinct_wasm.Bits.Count.{
  bit_length, bit_length-suc, bit_length_fits, bit_length_le, leading_zeros_lem,
}
use tdb_succinct_wasm.Bits.Table.{bit_and-0x7f}
use tdb_succinct_wasm.VByte.{
  encoding_len, clear_msb, set_msb, write_byte, encode_loop, encode_unchecked, encode_slice,
  encode_vec, encode_array,
}

-- The format: groups of seven bits, lowest first, the last one with 128 added.
unfoldable pub groups : ℕ → ℕ → List ℕ
groups zero n = (n + 128) ∷ []
groups (suc k) n =
    let rest = groups k (n / 128) in if ltb n 128 then (n + 128) ∷ [] else (n % 128) ∷ rest

clear_msb_low : (n : ℕ) → clear_msb (n % 256) ≡ n % 128
unfolding clear_msb
clear_msb_low n = bit_and-0x7f (n % 256) (omega arith) ∙ omega arith

set_msb_low : (n : ℕ) → n < 128 → set_msb (n % 256) ≡ n + 128
unfolding set_msb
set_msb_low n h = let e : n % 256 ≡ n = omega arith in rw e (bit_or-add 7 n 1 h ∙ omega arith)

pub width_step : (k : ℕ) → 2 ^ (7 * suc k + 1) ≡ 128 * 2 ^ (7 * k + 1)
width_step k =
    let e : 7 * suc k + 1 ≡ 7 * k + 1 + 7 = omega arith in rw e (simp towards_suc (omega arith))

pub length-groups-pos : (k n : ℕ) → 0 < length (groups k n)
unfolding groups
length-groups-pos zero n = omega arith
length-groups-pos (suc k) n = ground arith

set-append {ℓ} :
    {A : Type ℓ} (front rest : List A) (x v : A)
    → set (front ++ (x ∷ rest)) (length front) v ≡ front ++ (v ∷ rest)
set-append [] rest x v = refl
set-append (y ∷ front) rest x v = ap (λ t. y ∷ t) (set-append front rest x v)

write_byte_at :
    (front rest : List ℕ) (x v : ℕ)
    → write_byte (front ++ (x ∷ rest)) (length front) v ≡ done ((front ++ (v ∷ [])) ++ rest)
unfolding write_byte
write_byte_at front rest x v = ground (
  arith,
  length-append front (x ∷ rest),
  set-append front rest x v,
  append_assoc front (v ∷ []) rest,
)

-- A loop that has written `front` writes the groups behind it and leaves the rest alone.
encode_loop-groups :
    (k fuel : ℕ) (front rest : List ℕ) (num : ℕ)
    → num < 2 ^ (7 * k + 1)
    → k < fuel
    → length (groups k num) ≤ length rest
    → encode_loop fuel (front ++ rest) num (length front)
      ≡ done (
        (front ++ groups k num) ++ drop (length (groups k num)) rest,
        length front + length (groups k num),
      )
unfolding encode_loop groups
encode_loop-groups k zero front rest num h f p = absurd (omega arith)
encode_loop-groups zero (suc fuel) front [] num h f p = absurd (omega arith)
encode_loop-groups zero (suc fuel) front (x ∷ rest) num h f p =
    ground (arith, set_msb_low num, write_byte_at front rest x (set_msb (num % 256)))
encode_loop-groups (suc k) (suc fuel) front [] num h f p =
    absurd (omega (arith, length-groups-pos (suc k) num))
encode_loop-groups (suc k) (suc fuel) front (x ∷ rest) num h f p = elim (Bool-cases (ltb num 128)) [
  | inl small ↦ ground (arith, set_msb_low num, write_byte_at front rest x (set_msb (num % 256)))
  | inr large ↦
      let low : List ℕ = (num % 128) ∷ [] in
      let next =
        encode_loop-groups k fuel (front ++ low) rest (num / 128) (omega (arith, width_step k))
          (omega arith) (ground arith) in
      ground (
        arith,
        clear_msb_low num,
        write_byte_at front rest x (clear_msb (num % 256)),
        next,
        length-append front low,
        append_assoc front low (groups k (num / 128)),
      )
]

bit_length_seven :
    (k n : ℕ)
    → 128 ≤ n
    → bit_length (suc (suc (suc (suc (suc (suc (suc k))))))) n ≡ bit_length k (n / 128) + 7
bit_length_seven k n h =
    let e : n / 2 / 2 / 2 / 2 / 2 / 2 / 2 ≡ n / 128 = omega arith in
    omega (
      arith,
      bit_length-suc (suc (suc (suc (suc (suc (suc k)))))) n (omega arith),
      bit_length-suc (suc (suc (suc (suc (suc k))))) (n / 2) (omega arith),
      bit_length-suc (suc (suc (suc (suc k)))) (n / 2 / 2) (omega arith),
      bit_length-suc (suc (suc (suc k))) (n / 2 / 2 / 2) (omega arith),
      bit_length-suc (suc (suc k)) (n / 2 / 2 / 2 / 2) (omega arith),
      bit_length-suc (suc k) (n / 2 / 2 / 2 / 2 / 2) (omega arith),
      bit_length-suc k (n / 2 / 2 / 2 / 2 / 2 / 2) (omega arith),
      ap (bit_length k) e,
    )

-- The count of groups, from the count of digits.
pub length-groups :
    (k n : ℕ)
    → n < 2 ^ (7 * k + 1)
    → 0 < n
    → length (groups k n) ≡ (bit_length (7 * k + 1) n + 6) / 7
unfolding groups
length-groups zero n h p =
    let e : bit_length 1 n ≡ bit_length 0 (n / 2) + 1 = bit_length-suc 0 n p in
    omega (arith, e, bit_length_le 0 (n / 2))
length-groups (suc k) n h p = elim (Bool-cases (ltb n 128)) [
  | inl small ↦
      let fits = bit_length_fits (7 * suc k + 1) n in
      let upper = (fits 7 h).1 (ground arith) in
      let lower : ¬ (bit_length (7 * suc k + 1) n ≤ 0) = λ q. omega (arith, (fits 0 h).0 q) in
      rw small (omega arith)
  | inr large ↦
      let e : 7 * suc k + 1 ≡ suc (suc (suc (suc (suc (suc (suc (7 * k + 1))))))) = omega arith in
      let big : 128 ≤ n = ground arith in
      let rest = length-groups k (n / 128) (omega (arith, width_step k)) (omega arith) in
      rw (large, e) (omega (arith, bit_length_seven (7 * k + 1) n big, rest))
]

-- Every `u64` takes as many bytes as `encoding_len` says, and 1 to 10 of them.
pub encoding_len-groups :
    (num : ℕ)
    → num < 2 ^ 64
    → (length (groups 9 num) ≡ encoding_len num) × (1 ≤ encoding_len num) × (encoding_len num ≤ 10)
unfolding encoding_len
encoding_len-groups num h = elim (Bool-cases (num == 0)) [
  | inl null ↦
      let e : num ≡ 0 = ground arith in rw e (unfold groups in refl, omega arith, omega arith)
  | inr more ↦
      let pos : 0 < num = ground arith in
      let lower : ¬ (bit_length 64 num ≤ 0) =
        λ q. omega (arith, (bit_length_fits 64 num 0 h).0 q) in
      let upper = bit_length_le 64 num in
      let size = length-groups 9 num h pos in
      let zeros = leading_zeros_lem num in rw more (omega arith, omega arith, omega arith)
]

-- A buffer that is long enough gets the groups of the number at its front, and the rest of it stays.
pub encode_unchecked_lem :
    (buf : List ℕ) (num : ℕ)
    → num < 2 ^ 64
    → encoding_len num ≤ length buf
    → encode_unchecked buf num
      ≡ done (groups 9 num ++ drop (encoding_len num) buf, encoding_len num)
unfolding encode_unchecked
encode_unchecked_lem buf num h p =
    let (e, lo, hi) = encoding_len-groups num h in
    ground (arith, encode_loop-groups 9 10 [] buf num h (omega arith) (omega arith))

-- `encode_slice` answers nothing exactly on a slice shorter than the encoding; any other slice gets
-- the format of the number at its front, keeps its other bytes, and the answer is the length.
pub encode_slice_lem :
    (buf : List ℕ) (num : ℕ)
    → num < 2 ^ 64
    → encode_slice buf num
      ≡ done (
          if ltb (length buf) (encoding_len num)
          then none
          else some (groups 9 num ++ drop (encoding_len num) buf, encoding_len num))
unfolding encode_slice
encode_slice_lem buf num h = elim (Bool-cases (ltb (length buf) (encoding_len num))) [
  | inl short ↦ rw short
  | inr fits ↦ rw (fits, encode_unchecked_lem buf num h (ground arith))
]

drop-replicate_self : (n m : ℕ) → drop {A = ℕ} n (replicate (n + m) 0) ≡ replicate m 0
drop-replicate_self zero m = let e : 0 + m ≡ m = omega arith in rw e
drop-replicate_self (suc n) m =
    let e : suc n + m ≡ suc (n + m) = omega arith in rw e (drop-replicate_self n m)

-- `encode_vec` and `encode_array` return the format of every `u64`: the vector holds it and no
-- more, the array has it in front of zeros.
pub encode_vec_lem :
    (num : ℕ)
    → num < 2 ^ 64
    → (encode_vec num ≡ done (groups 9 num))
      × (encode_array num
          ≡ done (groups 9 num ++ replicate (10 - encoding_len num) 0, encoding_len num))
unfolding encode_vec encode_array
encode_vec_lem num h =
    let len = encoding_len num in
    let (e, lo, hi) = encoding_len-groups num h in
    let whole : len + (10 - len) ≡ 10 = omega arith in
    let exact : len + 0 ≡ len = omega arith in
    let none_left : drop {A = ℕ} len (replicate len 0) ≡ [] =
      rw exact at (drop-replicate_self len 0) in
    (
      rw
          (encode_unchecked_lem (replicate len 0) num h
            (omega (arith, length-replicate {A = ℕ} len 0)))
          (rw none_left (ap done (append-nil (groups 9 num)))),
      encode_unchecked_lem (replicate 10 0) num h (omega arith)
          ∙ ap (λ t. done (groups 9 num ++ t, len))
              (rw whole at (drop-replicate_self len (10 - len))),
    )
