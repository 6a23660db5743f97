-- ===== src/Bits/Count.antt =====
-- The counting methods of Rust's `u64`: `leading_zeros` and `count_ones`.
use native.Mathlib.Nat.{pow-suc, one-le-pow}
use tdb_succinct_wasm.Bits.Digit
use tdb_succinct_wasm.Base.{
  ℕ, zero, suc, ◌+◌, ◌-◌, ◌/◌, ◌^◌, ◌≤◌, ◌<◌, ◌↔◌, ◌≡◌, refl, arith, ◌==◌, if◌then◌else◌,
}
use tdb_succinct_wasm.Bits.Digit.{bit, bit-zero, bit-suc}

-- The number of digits of `n`, as far as `k` of them.
unfoldable pub bit_length : ℕ → ℕ → ℕ
bit_length zero n = 0
bit_length (suc k) n = let rest = bit_length k (n / 2) in if n == 0 then 0 else suc rest

-- `u64::leading_zeros`.
unfoldable pub leading_zeros : ℕ → ℕ
unfolding bit_length
leading_zeros n = 64 - bit_length 64 n

pub leading_zeros_lem : (n : ℕ) → leading_zeros n ≡ 64 - bit_length 64 n
unfolding leading_zeros
leading_zeros_lem n = refl

pub bit_length-suc : (k n : ℕ) → 0 < n → bit_length (suc k) n ≡ bit_length k (n / 2) + 1
unfolding bit_length
bit_length-suc k n h = ground arith

pub bit_length_le : (k n : ℕ) → bit_length k n ≤ k
unfolding bit_length
bit_length_le zero n = omega arith
bit_length_le (suc k) n = ground (arith, bit_length_le k (n / 2))

-- `n` fits `w` digits exactly when it has at most `w` of them.
pub bit_length_fits : (k n w : ℕ) → n < 2 ^ k → (bit_length k n ≤ w) ↔ (n < 2 ^ w)
unfolding bit_length
bit_length_fits zero n w h = (λ p. one_pow w, λ p. omega arith)
  where
    one_pow : (v : ℕ) → n < 2 ^ v
    one_pow zero = h
    one_pow (suc v) = omega (arith, one_pow v, pow-suc 2 v)
bit_length_fits (suc k) n zero h = ground arith
bit_length_fits (suc k) n (suc w) h =
    let (to, from) = bit_length_fits k (n / 2) w (omega (arith, pow-suc 2 k)) in
    (λ p. ground (arith, pow-suc 2 w, one-le-pow w 2, to), λ p. ground (arith, pow-suc 2 w, from))

-- `val.leading_zeros() < 64 - w` is the test that `val` does not fit `w` bits.
pub leading_zeros_fits : (n w : ℕ) → n < 2 ^ 64 → w ≤ 64 → (64 - w ≤ leading_zeros n) ↔ (n < 2 ^ w)
unfolding leading_zeros
leading_zeros_fits n w h p =
    let (to, from) = bit_length_fits 64 n w h in
    let small = bit_length_le 64 n in (λ q. to (omega arith), λ q. let r = from q in omega arith)

-- The ones among the lowest `k` digits.
unfoldable pub ones_below : ℕ → ℕ → ℕ
ones_below zero n = 0
ones_below (suc k) n = bit n k + ones_below k n

-- `u64::count_ones`.
unfoldable pub count_ones : ℕ → ℕ
unfolding ones_below
count_ones n = ones_below 64 n

pub ones_below-le : (k n : ℕ) → ones_below k n ≤ k
unfolding ones_below
ones_below-le zero n = omega arith
ones_below-le (suc k) n = omega (arith, ones_below-le k n, Digit.bit-lt n k)
