-- ===== src/Words/Width.antt =====
-- util.rs: `calculate_width`, the bits that a number takes.
use tdb_succinct_wasm.Base.{ℕ, ◌-◌, ◌≤◌, ◌<◌, ◌^◌, ◌↔◌, ◌==◌, if◌then◌else◌, arith}
use tdb_succinct_wasm.Bits.Count.{leading_zeros, leading_zeros_lem, bit_length_fits, bit_length_le}

pub calculate_width : ℕ → ℕ
calculate_width size = let msb = 64 - leading_zeros size in if msb == 0 then 1 else msb

-- The width of a `u64` is from 1 to 64, and for `w` at least 1 the number is below 2 ^ w exactly
-- when its width is at most `w`.
pub calculate_width_fits :
    (size w : ℕ)
    → size < 2 ^ 64
    → 1 ≤ w
    → (1 ≤ calculate_width size)
      × (calculate_width size ≤ 64)
      × ((calculate_width size ≤ w) ↔ (size < 2 ^ w))
unfolding calculate_width
calculate_width_fits size w h p =
    let zeros = leading_zeros_lem size in
    let most = bit_length_le 64 size in
    let (to, from) = bit_length_fits 64 size w h in
    (ground arith, ground arith, (λ q. to (ground arith), λ q. let r = from q in ground arith))
