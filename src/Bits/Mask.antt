-- ===== src/Bits/Mask.antt =====
-- `& (2^k - 1)` keeps the low `k` digits.
use native.Mathlib.Nat.{pow-suc, one-le-pow, mod-lt}
use native.Mathlib.Decide.{dec_lt}
use tdb_succinct_wasm.Base.{ℕ, zero, suc, ◌-◌, ◌%◌, ◌^◌, ◌<◌, bit_and, ◌≡◌, refl, ◌∙◌, arith}
use tdb_succinct_wasm.Bits.Digit.{bit, bit-zero, bit-suc, bit_cong, bit-bit_and, bit-lt}
use tdb_succinct_wasm.Bits.Shift.{bit-mod_low, bit_of_lt}
use tdb_succinct_wasm.Bits.Ext.{bit_ext_all}

pub bit_of_ones : (k i : ℕ) → i < k → bit (2 ^ k - 1) i ≡ 1
bit_of_ones zero i h = absurd (omega arith)
bit_of_ones (suc k) zero h =
    omega (arith, bit-zero (2 ^ suc k - 1), pow-suc 2 k, one-le-pow k 2 (omega arith))
bit_of_ones (suc k) (suc i) h =
    bit-suc (2 ^ suc k - 1) i
    ∙ bit_cong (omega (arith, pow-suc 2 k, one-le-pow k 2 (omega arith))) refl
    ∙ bit_of_ones k i (omega arith)

pub bit_and_mask : (k n : ℕ) → bit_and n (2 ^ k - 1) ≡ n % 2 ^ k
bit_and_mask k n = bit_ext_all _ _ digit
  where
    pos : 0 < 2 ^ k
    pos = one-le-pow k 2 (omega arith)

    ones_small : 2 ^ k - 1 < 2 ^ k
    ones_small = omega (arith, pos)

    digit : (i : ℕ) → bit (bit_and n (2 ^ k - 1)) i ≡ bit (n % 2 ^ k) i
    digit i =
        let joined = bit-bit_and n (2 ^ k - 1) i in
        elim (dec_lt i k) [
          | yes p ↦ omega (arith, joined, bit_of_ones k i p, bit-mod_low k n i p, bit-lt n i)
          | no p ↦ omega (
            arith,
            joined,
            bit_of_lt k (2 ^ k - 1) i ones_small (omega arith),
            bit_of_lt k (n % 2 ^ k) i (mod-lt n pos) (omega arith),
          )
        ]

-- The masks that the program writes out.
pub bit_and-0x3f : (n : ℕ) → bit_and n 0x3f ≡ n % 64
bit_and-0x3f n = bit_and_mask 6 n

pub bit_and-0xffffff : (n : ℕ) → bit_and n 0xffffff ≡ n % 2 ^ 24
bit_and-0xffffff n = bit_and_mask 24 n

pub bit_and-0xffffffff : (n : ℕ) → bit_and n 0xffffffff ≡ n % 2 ^ 32
bit_and-0xffffffff n = bit_and_mask 32 n
