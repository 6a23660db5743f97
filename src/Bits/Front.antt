-- ===== src/Bits/Front.antt =====
-- Counting the ones of a word from its front.
use native.Mathlib.Nat.{div-div-eq-div-mul, pow-suc, div-le_self}
use tdb_succinct_wasm.Base.{
  ℕ, zero, suc, ◌+◌, ◌-◌, ◌/◌, ◌^◌, ◌≤◌, ◌<◌, ◌≡◌, refl, sym, ap, ◌∙◌, arith,
}
use tdb_succinct_wasm.Bits.Digit.{bit, bit-suc, bit_cong}
use tdb_succinct_wasm.Bits.Shift.{◌>>>◌, bit-shr, bit_of_lt}
use tdb_succinct_wasm.Bits.Count.{ones_below, count_ones}

-- The digits of a number, taken from the low end.
ones_below_low : (k n : ℕ) → ones_below (suc k) n ≡ bit n 0 + ones_below k (n / 2)
unfolding ones_below
ones_below_low zero n = omega arith
ones_below_low (suc k) n = omega (arith, ones_below_low k n, bit-suc n k)

count_ones_half : (n : ℕ) → n < 2 ^ 64 → count_ones n ≡ bit n 0 + count_ones (n / 2)
unfolding count_ones
count_ones_half n h =
    let low = ones_below_low 63 n in
    let top : ones_below 64 (n / 2) ≡ bit (n / 2) 63 + ones_below 63 (n / 2) =
      unfold ones_below in refl in
    omega (arith, low, top, bit_of_lt 63 (n / 2) 63 (omega arith) (omega arith))

-- The ones of a word from its front: a shift of the others out.
unfoldable pub front_ones : ℕ → ℕ → ℕ
front_ones w zero = 0
front_ones w (suc r) = front_ones w r + bit w (63 - r)

pub count_ones-shr : (w r : ℕ) → w < 2 ^ 64 → r ≤ 64 → count_ones (w >>> (64 - r)) ≡ front_ones w r
unfolding front_ones
count_ones-shr w zero h p =
    let e : w >>> (64 - 0) ≡ 0 = omega arith in rw e (unfold count_ones ones_below bit in refl)
count_ones-shr w (suc r) h p =
    let k = 64 - suc r in
    let y = w >>> k in
    let above : 64 - r ≡ suc k = omega arith in
    let half : y / 2 ≡ w >>> (64 - r) =
      rw above (div-div-eq-div-mul w (2 ^ k) 2 ∙ ap (λ (t : ℕ). w / t) (sym (pow-suc 2 k))) in
    let low : bit y 0 ≡ bit w (63 - r) = bit-shr k w 0 ∙ bit_cong {a = w} refl (omega arith) in
    let word : y < 2 ^ 64 = omega (arith, div-le_self w (2 ^ k)) in
    let rest = count_ones-shr w r h (omega arith) in
    count_ones_half y word ∙ rw (half, low) (omega (arith, rest))

pub front_ones_all : (w : ℕ) → w < 2 ^ 64 → count_ones w ≡ front_ones w 64
front_ones_all w h =
    let e : w >>> (64 - 64) ≡ w = omega arith in rw e at (count_ones-shr w 64 h (omega arith))

pub front_ones-suc : (w r : ℕ) → front_ones w (suc r) ≡ front_ones w r + bit w (63 - r)
unfolding front_ones
front_ones-suc w r = refl
