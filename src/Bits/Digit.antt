-- ===== src/Bits/Digit.antt =====
-- The digit of a number at a place, and what `|` and `&` do to it.
use Prim.Native.Nat.{digits, bit_and-bitwise, bit_or-bitwise}
use tdb_succinct_wasm.Base.{
  ℕ, zero, suc, ◌+◌, ◌*◌, ◌/◌, ◌%◌, ◌≤◌, ◌<◌, min, max, bit_and, bit_or, ◌≡◌, refl, ◌∙◌, ap, arith,
}

-- Digit `i` of `n`, counted from the lowest: 0 or 1.
unfoldable pub bit : ℕ → ℕ → ℕ
bit n zero = n % 2
bit n (suc i) = bit (n / 2) i

pub bit-zero : (n : ℕ) → bit n 0 ≡ n % 2
unfolding bit
bit-zero n = refl

pub bit-suc : (n i : ℕ) → bit n (suc i) ≡ bit (n / 2) i
unfolding bit
bit-suc n i = refl

pub bit_cong : {a b i j : ℕ} → a ≡ b → i ≡ j → bit a i ≡ bit b j
bit_cong p q = cc

pub bit-lt : (n i : ℕ) → bit n i < 2
unfolding bit
bit-lt n zero = omega arith
bit-lt n (suc i) = bit-lt (n / 2) i

pub bit_of_zero : (i : ℕ) → bit 0 i ≡ 0
unfolding bit
bit_of_zero zero = refl
bit_of_zero (suc i) = bit_of_zero i

bit_double_zero : (q r : ℕ) → r < 2 → bit (q * 2 + r) 0 ≡ r
unfolding bit
bit_double_zero q r h = omega arith

bit_double_suc : (q r i : ℕ) → r < 2 → bit (q * 2 + r) (suc i) ≡ bit q i
unfolding bit
bit_double_suc q r i h = ap (λ t. bit t i) (omega arith)

module _ (z : ℕ → ℕ) (f : ℕ → ℕ → ℕ) (rest : (b i : ℕ) → bit (z b) i ≡ f 0 (bit b i))
    (small : (x y : ℕ) → x < 2 → y < 2 → f x y < 2) where
  -- A digit-wise operation acts on each digit, whatever count of digits covers the first number.
  bit-digits : (n a b i : ℕ) → a ≤ n → bit (digits z f n a b) i ≡ f (bit a i) (bit b i)
  bit-digits zero zero b i h = rest b i ∙ ap (λ t. f t (bit b i)) (omega (arith, bit_of_zero i))
  bit-digits zero (suc a) b i h = absurd (omega arith)
  bit-digits (suc n) zero b i h = rest b i ∙ ap (λ t. f t (bit b i)) (omega (arith, bit_of_zero i))
  bit-digits (suc n) (suc a) b zero h = ground (
    arith,
    bit_double_zero (digits z f n (suc a / 2) (b / 2)) (f (suc a % 2) (b % 2))
        (small _ _ (omega arith) (omega arith)),
    bit-zero (suc a),
    bit-zero b,
  )
  bit-digits (suc n) (suc a) b (suc i) h = ground (
    arith,
    bit_double_suc (digits z f n (suc a / 2) (b / 2)) (f (suc a % 2) (b % 2)) i
        (small _ _ (omega arith) (omega arith)),
    bit-digits n (suc a / 2) (b / 2) i (omega arith),
    bit-suc (suc a) i,
    bit-suc b i,
  )

pub bit-bit_or : (a b i : ℕ) → bit (bit_or a b) i ≡ max (bit a i) (bit b i)
bit-bit_or a b i =
    ap (λ t. bit t i) (bit_or-bitwise a b)
    ∙ bit-digits (λ y. y) max (λ c j. omega arith) (λ x y p q. omega arith) a a b i (omega arith)

pub bit-bit_and : (a b i : ℕ) → bit (bit_and a b) i ≡ min (bit a i) (bit b i)
bit-bit_and a b i =
    ap (λ t. bit t i) (bit_and-bitwise a b)
    ∙ bit-digits (λ y. 0) min (λ c j. omega (arith, bit_of_zero j)) (λ x y p q. omega arith) a a b i
        (omega arith)
