-- ===== src/SmallBitArray/Laws.antt =====
-- `get`, `iter` and `rank1` agree.
use native.Mathlib.Decide.{dec_lt}
use native.Mathlib.Nat.{pow-suc, one-le-pow, div-le_self}
use tdb_succinct_wasm.Base.{
  ℕ, zero, suc, ◌+◌, ◌-◌, ◌/◌, ◌^◌, ◌≤◌, ◌<◌, min, bit_and, ◌≡◌, refl, sym, ap, ◌∙◌, Bool, true,
  false, not, some, List, [], ◌∷◌, length, get_or, ltb, leb, ◌==◌, if◌then◌else◌, done, arith,
}
use tdb_succinct_wasm.Bits.Digit.{bit, bit-zero, bit-suc, bit-lt, bit_cong, bit-bit_and}
use tdb_succinct_wasm.Bits.Shift.{◌<<<◌, ◌>>>◌, u64, bit-shr, bit_of_lt, bit-u64_shl}
use tdb_succinct_wasm.Bits.Count.{count_ones}
use tdb_succinct_wasm.Bits.Front.{front_ones, front_ones-suc, front_ones_all}
use tdb_succinct_wasm.Bits.Ext.{bit_and-lt}
use tdb_succinct_wasm.Bits.Mask.{bit_of_ones}
use tdb_succinct_wasm.Words.Bytes.{single_digit}
use tdb_succinct_wasm.BitArray.Get.{digit, ones}
use tdb_succinct_wasm.SmallBitArray.{
  SmallBitArray, SmallBitArrayIter, get, rank1, iter, next, collect,
}

-- Bit `index` of the array, from the front of its word.
abbrev pub bit_at : SmallBitArray → ℕ → Bool
bit_at a index = not (bit a.val (63 - index) == 0)

pub get_lem : (a : SmallBitArray) (i : ℕ) → i < 63 → get a i ≡ done (bit_at a i)
unfolding get
get_lem a i h =
    let inside : leb 63 i ≡ false = ground arith in
    let e : bit (a.val >>> (63 - i)) 0 ≡ bit a.val (63 - i) =
      bit-shr (63 - i) a.val 0 ∙ bit_cong {a = a.val} refl (omega arith) in
    rw (inside, single_digit (a.val >>> (63 - i)) 0, e) refl

-- The digits of a complement.
bit_of_complement : (k x i : ℕ) → x < 2 ^ k → i < k → bit (2 ^ k - 1 - x) i ≡ 1 - bit x i
bit_of_complement zero x i h p = absurd (omega arith)
bit_of_complement (suc k) x zero h p =
    omega
      (arith, bit-zero (2 ^ suc k - 1 - x), bit-zero x, pow-suc 2 k, one-le-pow k 2 (omega arith))
bit_of_complement (suc k) x (suc i) h p =
    let half : (2 ^ suc k - 1 - x) / 2 ≡ 2 ^ k - 1 - x / 2 =
      omega (arith, pow-suc 2 k, one-le-pow k 2 (omega arith)) in
    bit-suc (2 ^ suc k - 1 - x) i
    ∙ rw (half, bit-suc x i)
        (bit_of_complement k (x / 2) i (omega (arith, pow-suc 2 k)) (omega arith))

-- Masking keeps the front `n` digits of a word and clears the others.
masked : ℕ → ℕ → ℕ
masked val n = bit_and val (2 ^ 64 - 1 - ((2 ^ 64 - 1) >>> n))

masked_digit :
    (val n r : ℕ) → r < 64 → bit (masked val n) (63 - r) ≡ (if ltb r n then bit val (63 - r) else 0)
unfolding masked
masked_digit val n r h =
    let m = (2 ^ 64 - 1) >>> n in
    let small : m < 2 ^ 64 = omega (arith, div-le_self (2 ^ 64 - 1) (2 ^ n)) in
    let joined = bit-bit_and val (2 ^ 64 - 1 - m) (63 - r) in
    let flipped = bit_of_complement 64 m (63 - r) small (omega arith) in
    let moved = bit-shr n (2 ^ 64 - 1) (63 - r) in
    let most = bit-lt val (63 - r) in
    elim (dec_lt r n) [
      | yes p ↦
          let test : ltb r n ≡ true = ground arith in
          let gone = bit_of_lt 64 (2 ^ 64 - 1) (63 - r + n) (omega arith) (omega arith) in
          rw test (omega (arith, joined, flipped, moved, most, gone))
      | no p ↦
          let test : ltb r n ≡ false = ground arith in
          let kept = bit_of_ones 64 (63 - r + n) (omega arith) in
          rw test (omega (arith, joined, flipped, moved, most, kept))
    ]

front_ones-masked : (val n r : ℕ) → r ≤ 64 → front_ones (masked val n) r ≡ front_ones val (min r n)
front_ones-masked val n zero h =
    let e : min 0 n ≡ 0 = omega arith in rw e (unfold front_ones in refl)
front_ones-masked val n (suc r) h =
    let rest = front_ones-masked val n r (omega arith) in
    let here = masked_digit val n r (omega arith) in
    front_ones-suc (masked val n) r ∙ elim (dec_lt r n) [
      | yes p ↦
          let test : ltb r n ≡ true = ground arith in
          let e : min (suc r) n ≡ suc r = omega arith in
          let e' : min r n ≡ r = omega arith in
          let rest' : front_ones (masked val n) r ≡ front_ones val r = rw e' at rest in
          let here' : bit (masked val n) (63 - r) ≡ bit val (63 - r) = rw test at here in
          rw (e, front_ones-suc val r) (omega (arith, rest', here'))
      | no p ↦
          let test : ltb r n ≡ false = ground arith in
          let e : min (suc r) n ≡ min r n = omega arith in
          let here' : bit (masked val n) (63 - r) ≡ 0 = rw test at here in
          rw e (omega (arith, rest, here'))
    ]

-- The bits of the array as a list.
bits_from : ℕ → SmallBitArray → ℕ → List Bool
bits_from zero a i = []
bits_from (suc n) a i = bit_at a i ∷ bits_from n a (i + 1)

get_or-bits_from :
    (n i k : ℕ) (a : SmallBitArray) → k < n → get_or (bits_from n a i) k false ≡ bit_at a (i + k)
unfolding bits_from
get_or-bits_from zero i k a h = absurd (omega arith)
get_or-bits_from (suc n) i zero a h = let e : i + 0 ≡ i = omega arith in rw e
get_or-bits_from (suc n) i (suc k) a h =
    let e : i + suc k ≡ i + 1 + k = omega arith in
    rw e (get_or-bits_from n (i + 1) k a (omega arith))

length-bits_from : (n i : ℕ) (a : SmallBitArray) → length (bits_from n a i) ≡ n
unfolding bits_from
length-bits_from zero i a = refl
length-bits_from (suc n) i a = ap suc (length-bits_from n (i + 1) a)

digit_of_bit : (n : ℕ) → n < 2 → digit (not (n == 0)) ≡ n
digit_of_bit zero h = refl
digit_of_bit (suc zero) h = refl
digit_of_bit (suc (suc n)) h = absurd (omega arith)

ones-front_ones :
    (a : SmallBitArray) (n : ℕ) → n ≤ 63 → ones (bits_from 63 a 0) n ≡ front_ones a.val n
unfolding ones
ones-front_ones a zero h = unfold front_ones in refl
ones-front_ones a (suc n) h =
    let e : 0 + n ≡ n = omega arith in
    let here : get_or (bits_from 63 a 0) n false ≡ bit_at a n =
      rw e at (get_or-bits_from 63 0 n a (omega arith)) in
    rw (here, digit_of_bit (bit a.val (63 - n)) (bit-lt a.val (63 - n)), front_ones-suc a.val n)
      (omega (arith, ones-front_ones a n (omega arith)))

next_inside :
    (v i : ℕ)
    → i < 63
    → next (record { val = v; ix = i })
      ≡ (some (not (bit v 63 == 0)), record { val = u64 (v <<< 1); ix = i + 1 })
unfolding next
next_inside v i h =
    let inside : leb 63 i ≡ false = ground arith in rw (inside, single_digit v 63) refl

collect-some :
    (n : ℕ) (it it' : SmallBitArrayIter) (b : Bool)
    → next it ≡ (some b, it')
    → collect (suc n) it ≡ b ∷ collect n it'
unfolding collect
collect-some n it it' b e = rw (ap (λ p. p.0) e, collect) (ap (λ p. b ∷ collect n (p.1)) e)

-- The iterator, after `i` calls: the word is shifted `i` places.
collect-bits_from :
    (a : SmallBitArray) (n i v : ℕ)
    → i + n ≡ 63
    → ((k : ℕ) → k < n → bit v (63 - k) ≡ bit a.val (63 - (i + k)))
    → collect (suc n) (record { val = v; ix = i }) ≡ bits_from n a i
unfolding collect next bits_from
collect-bits_from a zero i v e h =
    let end : leb 63 i ≡ true = ground arith in rw (end, collect) refl
collect-bits_from a (suc n) i v e h =
    let place : 63 - (i + 0) ≡ 63 - i = omega arith in
    let first : bit v 63 ≡ bit a.val (63 - i) = rw place at (h 0 (omega arith)) in
    collect-some (suc n) (record { val = v; ix = i }) (record { val = u64 (v <<< 1); ix = i + 1 })
      (bit_at a i) (next_inside v i (omega arith) ∙ rw first refl)
    ∙ ap (λ bs. bit_at a i ∷ bs)
        (collect-bits_from a n (i + 1) (u64 (v <<< 1)) (omega arith) (λ k p.
          bit-u64_shl v 1 (63 - k) (omega arith) (omega arith)
          ∙ bit_cong {a = v} refl (omega arith)
          ∙ h (suc k) (omega arith)
          ∙ bit_cong {a = a.val} refl (omega arith)))

rank1-front_ones :
    (a : SmallBitArray) (i : ℕ)
    → a.val < 2 ^ 64
    → i < 63
    → rank1 a i ≡ done (ones (bits_from 63 a 0) (i + 1))
unfolding rank1
rank1-front_ones a i word h =
    let inside : leb 63 i ≡ false = ground arith in
    let n : min 64 (i + 1) ≡ i + 1 = omega arith in
    let small : masked a.val (i + 1) < 2 ^ 64 = unfold masked in bit_and-lt 64 a.val _ word in
    let counted : count_ones (masked a.val (i + 1)) ≡ ones (bits_from 63 a 0) (i + 1) =
      front_ones_all (masked a.val (i + 1)) small
      ∙ front_ones-masked a.val (i + 1) 64 (omega arith)
      ∙ rw n (sym (ones-front_ones a (i + 1) (omega arith))) in
    rw inside (ap done (unfold masked in counted))

-- For an array in a word of 64 bits there is a list of 63 bits that `iter` hands out; `get` answers
-- its element at each index below 63, and `rank1` the number of ones in it up to and with the index.
pub rank1-iter :
    (a : SmallBitArray)
    → a.val < 2 ^ 64
    → (bs : List Bool) × (collect 64 (iter a) ≡ bs)
      × (length bs ≡ 63)
      × ((i : ℕ) → i < 63 → get a i ≡ done (get_or bs i false))
      × ((i : ℕ) → i < 63 → rank1 a i ≡ done (ones bs (i + 1)))
unfolding iter
rank1-iter a word = (
  bits_from 63 a 0,
  collect-bits_from a 63 0 a.val refl (λ k h. bit_cong {a = a.val} refl (omega arith)),
  length-bits_from 63 0 a,
  λ i h.
      let e : 0 + i ≡ i = omega arith in
      get_lem a i h ∙ ap done (sym (rw e at (get_or-bits_from 63 0 i a h))),
  λ i h. rank1-front_ones a i word h,
)
