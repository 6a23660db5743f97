-- ===== src/Bits/Shift.antt =====
-- The shifts by a computed distance, and the masks, digit by digit.
use native.Mathlib.Nat.{
  pow-suc, div-div-eq-div-mul, add-suc, one-le-pow, mul-add-mod_self_left, div-add-mod, mod-lt,
  mod-eq_of_lt,
}
use tdb_succinct_wasm.Base.{
  ℕ, zero, suc, ◌+◌, ◌-◌, ◌*◌, ◌/◌, ◌%◌, ◌^◌, ◌≤◌, ◌<◌, ◌≡◌, refl, sym, ◌∙◌, ap, arith,
}
use native.Mathlib.Decide.{dec_lt}
use tdb_succinct_wasm.Bits.Digit.{bit, bit-zero, bit-suc, bit_cong, bit_of_zero}

-- `x << k` before it is cut to a width, and `x >> k`.
infixl 75 ◌<<<◌ ◌>>>◌
abbrev pub ◌<<<◌ : ℕ → ℕ → ℕ
x <<< k = x * 2 ^ k

abbrev pub ◌>>>◌ : ℕ → ℕ → ℕ
x >>> k = x / 2 ^ k

-- The low 64 bits: what a `u64` keeps.
abbrev pub u64 : ℕ → ℕ
u64 n = n % 2 ^ 64

pub shr-suc : (n k : ℕ) → n >>> suc k ≡ (n / 2) >>> k
shr-suc n k =
    let e : 2 ^ suc k ≡ 2 * 2 ^ k = omega (arith, pow-suc 2 k) in
    rw e (sym (div-div-eq-div-mul n 2 (2 ^ k)))

pub shl-suc : (n k : ℕ) → n <<< suc k ≡ (n <<< k) * 2
shl-suc n k = omega (arith, ap (λ (t : ℕ). n * t) (pow-suc 2 k))

mod-suc_pow : (n k : ℕ) → n % 2 ^ suc k ≡ n / 2 % 2 ^ k * 2 + n % 2
mod-suc_pow n k =
    let m = n / 2 % 2 ^ k in
    let d = n / 2 / 2 ^ k in
    let half : 2 ^ k * d + m ≡ n / 2 = div-add-mod (n / 2) (2 ^ k) in
    let twice : 2 ^ suc k * d ≡ 2 * (2 ^ k * d) =
      omega (arith, ap (λ (t : ℕ). t * d) (pow-suc 2 k)) in
    let whole : n ≡ 2 ^ suc k * d + (m * 2 + n % 2) = omega arith in
    let small : m < 2 ^ k = mod-lt (n / 2) (one-le-pow k 2 (omega arith)) in
    ap (λ (t : ℕ). t % 2 ^ suc k) whole
    ∙ mul-add-mod_self_left (2 ^ suc k) d (m * 2 + n % 2)
    ∙ mod-eq_of_lt (omega (arith, pow-suc 2 k))

pub bit-shr : (k n i : ℕ) → bit (n >>> k) i ≡ bit n (i + k)
bit-shr zero n i = bit_cong (omega arith) (omega arith)
bit-shr (suc k) n i =
    ground (arith, shr-suc n k, bit-shr k (n / 2) i, bit-suc n (i + k), add-suc i k)

pub bit-shl_low : (k n i : ℕ) → i < k → bit (n <<< k) i ≡ 0
bit-shl_low zero n i h = absurd (omega arith)
bit-shl_low (suc k) n zero h = omega (arith, bit-zero (n <<< suc k), shl-suc n k)
bit-shl_low (suc k) n (suc i) h =
    let e : (n <<< suc k) / 2 ≡ n <<< k = omega (arith, shl-suc n k) in
    bit-suc (n <<< suc k) i ∙ rw e (bit-shl_low k n i (omega arith))

pub bit-shl_high : (k n i : ℕ) → bit (n <<< k) (i + k) ≡ bit n i
bit-shl_high zero n i = bit_cong (omega arith) (omega arith)
bit-shl_high (suc k) n i =
    let e : (n <<< suc k) / 2 ≡ n <<< k = omega (arith, shl-suc n k) in
    rw (add-suc i k) (bit-suc (n <<< suc k) (i + k) ∙ rw e (bit-shl_high k n i))

pub bit-mod_low : (k n i : ℕ) → i < k → bit (n % 2 ^ k) i ≡ bit n i
bit-mod_low zero n i h = absurd (omega arith)
bit-mod_low (suc k) n zero h = omega (arith, bit-zero (n % 2 ^ suc k), bit-zero n, mod-suc_pow n k)
bit-mod_low (suc k) n (suc i) h =
    let e : n % 2 ^ suc k / 2 ≡ n / 2 % 2 ^ k = omega (arith, mod-suc_pow n k) in
    bit-suc (n % 2 ^ suc k) i ∙ rw e (bit-mod_low k (n / 2) i (omega arith)) ∙ sym (bit-suc n i)

-- A number below 2 ^ k has no digit from place k on.
pub bit_of_lt : (k n i : ℕ) → n < 2 ^ k → k ≤ i → bit n i ≡ 0
bit_of_lt zero n i h p = bit_cong (omega arith) refl ∙ bit_of_zero i
bit_of_lt (suc k) n zero h p = absurd (omega arith)
bit_of_lt (suc k) n (suc i) h p =
    bit-suc n i ∙ bit_of_lt k (n / 2) i (omega (arith, pow-suc 2 k)) (omega arith)

-- Digit `i` of a `u64` moved `k` places up: the places below `k` are empty.
pub bit-u64_shl : (n k i : ℕ) → i < 64 → k ≤ i → bit (u64 (n <<< k)) i ≡ bit n (i - k)
bit-u64_shl n k i h p =
    bit-mod_low 64 (n <<< k) i h
    ∙ bit_cong {a = n <<< k} refl (omega arith)
    ∙ bit-shl_high k n (i - k)

pub bit-u64_shl_low : (n k i : ℕ) → i < k → bit (u64 (n <<< k)) i ≡ 0
bit-u64_shl_low n k i h = elim (dec_lt i 64) [
  | yes p ↦ bit-mod_low 64 (n <<< k) i p ∙ bit-shl_low k n i h
  | no p ↦ bit_of_lt 64 (u64 (n <<< k)) i (omega arith) (omega arith)
]
