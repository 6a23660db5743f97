-- ===== src/Bits/Ext.antt =====
-- Numbers with the same digits are equal; `|` of fields that do not overlap is a sum.
use native.Mathlib.Nat.{
  pow-suc, one-le-pow, mod-lt, mul-add-mod_self_right, mul-add-div_right, mod-eq_of_lt,
  div-eq_of_lt,
}
use native.Mathlib.Decide.{dec_lt}
use tdb_succinct_wasm.Base.{
  ℕ, zero, suc, ◌+◌, ◌-◌, ◌*◌, ◌/◌, ◌%◌, ◌^◌, ◌≤◌, ◌<◌, bit_and, bit_or, ◌≡◌, refl, sym, ◌∙◌, ap,
  arith,
}
use tdb_succinct_wasm.Bits.Digit.{bit, bit-zero, bit-suc, bit_cong, bit-bit_or, bit-bit_and}
use tdb_succinct_wasm.Bits.Shift.{
  ◌<<<◌, ◌>>>◌, bit-shr, bit-mod_low, bit_of_lt, bit-shl_low, bit-shl_high,
}

pub bit_ext : (k a b : ℕ) → a < 2 ^ k → b < 2 ^ k → ((i : ℕ) → i < k → bit a i ≡ bit b i) → a ≡ b
bit_ext zero a b p q h = omega arith
bit_ext (suc k) a b p q h =
    let low : a % 2 ≡ b % 2 = sym (bit-zero a) ∙ h 0 (omega arith) ∙ bit-zero b in
    let high : a / 2 ≡ b / 2 =
      bit_ext k (a / 2) (b / 2) (omega (arith, pow-suc 2 k)) (omega (arith, pow-suc 2 k))
        (λ i hi. sym (bit-suc a i) ∙ h (suc i) (omega arith) ∙ bit-suc b i) in
    omega arith

lt-two-pow : (n : ℕ) → n < 2 ^ n
lt-two-pow zero = omega arith
lt-two-pow (suc n) = omega (arith, lt-two-pow n, pow-suc 2 n)

pow-add : (a b : ℕ) → 2 ^ (a + b) ≡ 2 ^ a * 2 ^ b
pow-add a zero = let e : a + 0 ≡ a = omega arith in rw e (omega arith)
pow-add a (suc b) =
    let e : a + suc b ≡ suc (a + b) = omega arith in
    ap (λ t. 2 ^ t) e
    ∙ omega (
      arith,
      pow-suc 2 (a + b),
      pow-suc 2 b,
      pow-add a b,
      ap (λ (t : ℕ). 2 ^ a * t) (pow-suc 2 b),
    )

lt-pow-add : (a b : ℕ) → a < 2 ^ (a + b)
lt-pow-add a b = grind (arith, lt-two-pow a, pow-add a b, one-le-pow b 2 (omega arith))

-- The same digits at every place.
pub bit_ext_all : (a b : ℕ) → ((i : ℕ) → bit a i ≡ bit b i) → a ≡ b
bit_ext_all a b h =
    let e : b + a ≡ a + b = omega arith in
    bit_ext (a + b) a b (lt-pow-add a b) (rw e at (lt-pow-add b a)) (λ i p. h i)

field_low : (k a b : ℕ) → a < 2 ^ k → ((b <<< k) + a) % 2 ^ k ≡ a
field_low k a b h = mul-add-mod_self_right b (2 ^ k) a ∙ mod-eq_of_lt h

field_high : (k a b : ℕ) → a < 2 ^ k → ((b <<< k) + a) >>> k ≡ b
field_high k a b h =
    mul-add-div_right (one-le-pow k 2 (omega arith)) b a ∙ omega (arith, div-eq_of_lt h)

-- The digits of a sum of two fields.
pub bit-field_low : (k a b i : ℕ) → a < 2 ^ k → i < k → bit ((b <<< k) + a) i ≡ bit a i
bit-field_low k a b i h p =
    sym (bit-mod_low k ((b <<< k) + a) i p) ∙ bit_cong (field_low k a b h) refl

pub bit-field_high : (k a b i : ℕ) → a < 2 ^ k → bit ((b <<< k) + a) (i + k) ≡ bit b i
bit-field_high k a b i h = sym (bit-shr k ((b <<< k) + a) i) ∙ bit_cong (field_high k a b h) refl

-- `a | (b << k)` is a sum when `a` has no digit from place `k` on.
pub bit_or-add : (k a b : ℕ) → a < 2 ^ k → bit_or a (b <<< k) ≡ (b <<< k) + a
bit_or-add k a b h = bit_ext_all _ _ digit
  where
    digit : (i : ℕ) → bit (bit_or a (b <<< k)) i ≡ bit ((b <<< k) + a) i
    digit i = elim (dec_lt i k) [
      | yes p ↦
          omega (arith, bit-bit_or a (b <<< k) i, bit-shl_low k b i p, bit-field_low k a b i h p)
      | no p ↦
          let e : (i - k) + k ≡ i = omega arith in
          omega (
            arith,
            bit-bit_or a (b <<< k) i,
            rw e at (bit-shl_high k b (i - k)),
            rw e at (bit-field_high k a b (i - k) h),
            bit_of_lt k a i h (omega arith),
          )
    ]

-- A number with no digit from place `k` on is below 2 ^ k.
lt_of_digits : (k n : ℕ) → ((i : ℕ) → k ≤ i → bit n i ≡ 0) → n < 2 ^ k
lt_of_digits k n h =
    let pos : 0 < 2 ^ k = one-le-pow k 2 (omega arith) in
    let same : n % 2 ^ k ≡ n = bit_ext_all _ _ λ i. elim (dec_lt i k) [
      | yes p ↦ bit-mod_low k n i p
      | no p ↦ bit_of_lt k (n % 2 ^ k) i (mod-lt n pos) (omega arith) ∙ sym (h i (omega arith))
    ] in
    rw same at (mod-lt n pos)

pub bit_or-lt : (k a b : ℕ) → a < 2 ^ k → b < 2 ^ k → bit_or a b < 2 ^ k
bit_or-lt k a b p q =
    lt_of_digits k (bit_or a b)
      λ i h. omega (arith, bit-bit_or a b i, bit_of_lt k a i p h, bit_of_lt k b i q h)

pub bit_and-lt : (k a b : ℕ) → a < 2 ^ k → bit_and a b < 2 ^ k
bit_and-lt k a b p =
    lt_of_digits k (bit_and a b) λ i h. omega (arith, bit-bit_and a b i, bit_of_lt k a i p h)
