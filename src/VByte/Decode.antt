-- ===== src/VByte/Decode.antt =====
-- `decode_buf` on any input.
pub mod Groups
use native.Mathlib.Nat.{pow-le-pow_right, mod-eq_of_lt, div-add-mod}
use native.Mathlib.Decide.{dec_lt}
use native.Mathlib.Numerals.{towards_suc}
use tdb_succinct_wasm.Base.{
  ℕ, zero, suc, ◌+◌, ◌*◌, ◌/◌, ◌%◌, ◌^◌, ◌≤◌, ◌<◌, bit_or, ◌≡◌, refl, ap, ◌∙◌, true, false, ◌&&◌,
  inl, inr, List, [], ◌∷◌, ◌++◌, ltb, leb, ◌==◌, length, All, done, ok, err, Bool-cases, arith,
}
use tdb_succinct_wasm.Bits.Ext.{bit_or-add}
use tdb_succinct_wasm.Bits.Shift.{◌<<<◌, u64}
use tdb_succinct_wasm.Bits.Table.{bit_and-0x7f}
use tdb_succinct_wasm.VByte.{
  Buf, Decoded, encoded_value_too_large, unexpected_end_of_buffer, unexpected_encoding_len,
  decode_loop, decode_buf,
}
use tdb_succinct_wasm.VByte.{encoding_len}
use tdb_succinct_wasm.VByte.Encode.{groups, width_step, encoding_len-groups}

-- The number that a list of groups stands for, lowest group first.
abbrev pub value : List ℕ → ℕ
value [] = 0
value (x ∷ xs) = x % 128 + 128 * value xs

abbrev pub IsInner : ℕ → Type 0
IsInner x = x < 128

abbrev pub IsByte : ℕ → Type 0
IsByte x = x < 256

-- Seven more places.
pub pow_round : (n : ℕ) → 2 ^ (7 * (n + 1)) ≡ 128 * 2 ^ (7 * n)
pow_round n = let e : 7 * (n + 1) ≡ 7 * n + 7 = omega arith in rw e (simp towards_suc (omega arith))

low_shift : (n : ℕ) → n ≤ 8 → 2 ^ (7 * n) ≤ 2 ^ 56
low_shift n h = pow-le-pow_right (omega arith) {j = 56} (omega arith)

-- The group of a byte joins the number without overlap, and the sum fits 64 bits.
join_group :
    (acc g n : ℕ)
    → acc < 2 ^ (7 * n)
    → g < 128
    → n ≤ 9
    → (n ≡ 9 → g < 2)
    → (bit_or acc (u64 (g <<< (7 * n))) ≡ acc + g * 2 ^ (7 * n)) × (acc + g * 2 ^ (7 * n) < 2 ^ 64)
join_group acc g n ha hg hn top = elim (dec_lt n 9) [
  | yes p ↦
      let fits : acc + g * 2 ^ (7 * n) < 2 ^ 64 = grind (arith, low_shift n (omega arith)) in
      (rw (cut fits) (bit_or-add (7 * n) acc g ha ∙ omega arith), fits)
  | no p ↦
      let e : n ≡ 9 = omega arith in
      let w : 2 ^ (7 * n) ≡ 2 ^ 63 = ap (λ t. 2 ^ (7 * t)) e in
      let fits : acc + g * 2 ^ (7 * n) < 2 ^ 64 = omega (arith, ap (λ (t : ℕ). g * t) w, top e) in
      (rw (cut fits) (bit_or-add (7 * n) acc g ha ∙ omega arith), fits)
]
  where
    cut : acc + g * 2 ^ (7 * n) < 2 ^ 64 → u64 (g <<< (7 * n)) ≡ g <<< (7 * n)
    cut h = mod-eq_of_lt (omega arith)

module _ (buf : Buf) where
  open buf use {B, contents}

  -- What the answer says of the bytes `bs` that the buffer held, after `n` inner bytes that stood
  -- for `acc`.
  pub data Explains (bs : List ℕ) (n acc : ℕ) : Decoded B → Type 0 where
    number :
        (inner : List ℕ) (x : ℕ) (rest : B) {v count : ℕ}
        → bs ≡ inner ++ (x ∷ contents rest)
        → All IsInner inner
        → 128 ≤ x
        → v ≡ acc + 2 ^ (7 * n) * value (inner ++ (x ∷ []))
        → v < 2 ^ 64
        → count ≡ n + length inner + 1
        → count ≤ 10
        → Explains bs n acc (ok (v, count, rest))
    too_short :
        All IsInner bs → n + length bs < 10 → Explains bs n acc (err unexpected_end_of_buffer)
    too_long :
        (inner rest : List ℕ)
        → bs ≡ inner ++ rest
        → All IsInner inner
        → n + length inner ≡ 10
        → Explains bs n acc (err unexpected_encoding_len)
    too_large :
        (inner : List ℕ) (x : ℕ) (rest : List ℕ)
        → bs ≡ inner ++ (x ∷ rest)
        → All IsInner inner
        → n + length inner ≡ 9
        → 0x81 < x
        → Explains bs n acc (err encoded_value_too_large)

  Explains-inner :
      {bs : List ℕ} {n acc x : ℕ} (r : Decoded B)
      → x < 128
      → Explains bs (n + 1) (acc + x * 2 ^ (7 * n)) r
      → Explains (x ∷ bs) n acc r
  Explains-inner {n} {acc} {x} r hx (number inner y rest {v} e h p q l c d) =
      let same : x % 128 ≡ x = omega arith in
      let low_digit : x % 128 * 2 ^ (7 * n) ≡ x * 2 ^ (7 * n) = rw same in
      number (x ∷ inner) y rest (ap (λ t. x ∷ t) e) (hx, h) p
        (omega (arith, q, ap (λ (t : ℕ). t * value (inner ++ (y ∷ []))) (pow_round n), low_digit)) l
        (omega arith) d
  Explains-inner r hx (too_short h l) = too_short (hx, h) (omega arith)
  Explains-inner {x} r hx (too_long inner rest e h l) =
      too_long (x ∷ inner) rest (ap (λ t. x ∷ t) e) (hx, h) (omega arith)
  Explains-inner {x} r hx (too_large inner y rest e h l g) =
      too_large (x ∷ inner) y rest (ap (λ t. x ∷ t) e) (hx, h) (omega arith) g

  -- One round on a last byte.
  pub last_round :
      (fuel acc n x : ℕ) (b : B) (xs : List ℕ)
      → contents b ≡ x ∷ xs
      → x < 256
      → 128 ≤ x
      → n ≤ 9
      → (n ≡ 9 → x ≤ 0x81)
      → acc < 2 ^ (7 * n)
      → (rest : B) × (decode_loop buf (suc fuel) b acc (7 * n) n
          ≡ done (ok (acc + x % 128 * 2 ^ (7 * n), n + 1, rest)))
        × (contents rest ≡ xs)
        × (acc + x % 128 * 2 ^ (7 * n) < 2 ^ 64)
  unfolding decode_loop
  last_round fuel acc n x b xs e byte last m top h =
      let (rest, taken, left) = buf.get_u8_lem b x xs e in
      let (joined, fits) =
        join_group acc (x % 128) n h (omega arith) m (λ nine. omega (arith, top nine)) in
      let ends : leb 0x80 x ≡ true = ground arith in
      let small : (7 * n == 63 && ltb 0x81 x) ≡ false = ground arith in
      (
        rest,
        rw (buf.remaining_lem b x xs e, taken, ends, small, bit_and-0x7f x byte, joined),
        left,
        fits,
      )

  -- One round on a byte with others behind it.
  pub inner_round :
      (fuel acc n x : ℕ) (b : B) (xs : List ℕ)
      → contents b ≡ x ∷ xs
      → x < 128
      → n ≤ 8
      → acc < 2 ^ (7 * n)
      → (rest : B) × (decode_loop buf (suc fuel) b acc (7 * n) n
          ≡ decode_loop buf fuel rest (acc + x * 2 ^ (7 * n)) (7 * (n + 1)) (n + 1))
        × (contents rest ≡ xs)
        × (acc + x * 2 ^ (7 * n) < 2 ^ (7 * (n + 1)))
  unfolding decode_loop
  inner_round fuel acc n x b xs e inner m h =
      let (rest, taken, left) = buf.get_u8_lem b x xs e in
      let (joined, fits) =
        join_group acc x n h inner (omega arith) (λ nine. absurd (omega arith)) in
      let more : leb 0x80 x ≡ false = ground arith in
      let room : ltb 64 (7 * n + 7) ≡ false = ground arith in
      let e' : 7 * n + 7 ≡ 7 * (n + 1) = omega arith in
      (
        rest,
        rw (buf.remaining_lem b x xs e, taken, more, room, joined, e'),
        left,
        grind (arith, pow_round n),
      )

  -- The loop ends, with an answer that the bytes explain.
  decode_loop-Explains :
      (fuel : ℕ) (bs : List ℕ) (b : B) (acc n : ℕ)
      → contents b ≡ bs
      → All IsByte bs
      → n + fuel ≡ 10
      → n ≤ 9
      → acc < 2 ^ (7 * n)
      → (r : Decoded B) × (decode_loop buf fuel b acc (7 * n) n ≡ done r) × Explains bs n acc r
  decode_loop-Explains zero bs b acc n e bytes f m h = absurd (omega arith)
  decode_loop-Explains (suc fuel) [] b acc n e bytes f m h = (
    err unexpected_end_of_buffer,
    unfold decode_loop in rw (buf.empty_lem b e),
    too_short tt (omega arith),
  )
  decode_loop-Explains (suc fuel) (x ∷ xs) b acc n e (hx, bytes) f m h =
      elim (Bool-cases (leb 0x80 x)) [
        | inl last ↦ elim (Bool-cases (7 * n == 63 && ltb 0x81 x)) [
          | inl big ↦ (
            err encoded_value_too_large,
            unfold decode_loop in
                rw (buf.remaining_lem b x xs e, (buf.get_u8_lem b x xs e).1, last, big),
            too_large [] x xs refl tt (ground arith) (ground arith),
          )
          | inr small ↦
              let (rest, run, left, fits) =
                last_round fuel acc n x b xs e hx (ground arith) m (λ nine. ground arith) h in
              (
                ok (acc + x % 128 * 2 ^ (7 * n), n + 1, rest),
                run,
                number [] x rest (rw left) tt (ground arith) (omega arith) fits (omega arith)
                    (omega arith),
              )
        ]
        | inr more ↦ elim (Bool-cases (ltb 64 (7 * n + 7))) [
          | inl long ↦ (
            err unexpected_encoding_len,
            unfold decode_loop in
                rw (buf.remaining_lem b x xs e, (buf.get_u8_lem b x xs e).1, more, long),
            too_long (x ∷ []) xs refl (ground arith, tt) (ground arith),
          )
          | inr room ↦
              let hx' : x < 128 = ground arith in
              let below : n ≤ 8 = ground arith in
              let (rest, step, left, bound) = inner_round fuel acc n x b xs e hx' below h in
              let (r, run, why) =
                decode_loop-Explains fuel xs rest (acc + x * 2 ^ (7 * n)) (n + 1) left bytes
                  (omega arith) (omega arith) bound in
              (r, step ∙ run, Explains-inner r hx' why)
        ]
      ]

  -- `decode_buf` answers on every buffer of bytes, and the answer says what stands there: a number
  -- below 2 ^ 64 with its groups, the count of bytes taken and what is left behind them; or an end
  -- before the last byte; or ten inner bytes; or a tenth byte that does not fit.
  pub decode_buf_lem :
      (b : B)
      → All IsByte (contents b)
      → (r : Decoded B) × (decode_buf buf b ≡ done r) × Explains (contents b) 0 0 r
  unfolding decode_buf
  decode_buf_lem b bytes =
      decode_loop-Explains 10 (contents b) b 0 0 refl bytes (omega arith) (omega arith)
        (omega arith)
