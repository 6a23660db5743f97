-- ===== src/BitIndex/Ranges.antt =====
-- The counts of zeros, and of ranges.
use tdb_succinct_wasm.Base.{
  ℕ, zero, suc, ◌+◌, ◌-◌, ◌≤◌, ◌<◌, ◌≡◌, refl, ap, ◌∙◌, Bool, true, false, inl, inr, List, length,
  get_or, ltb, ◌==◌, done, Bool-cases, arith,
}
use tdb_succinct_wasm.Words.{Buffers}
use tdb_succinct_wasm.BitArray.Get.{digit, ones}
use tdb_succinct_wasm.BitIndex.{BitIndex, rank1_from_range, rank0, rank0_from_range}
use tdb_succinct_wasm.BitIndex.Rank.{IsIndexed, rank1-ones}

digit-le : (b : Bool) → digit b ≤ 1
digit-le true = omega arith
digit-le false = omega arith

pub ones-le : (bs : List Bool) (n : ℕ) → ones bs n ≤ n
unfolding ones
ones-le bs zero = omega arith
ones-le bs (suc n) = omega (arith, ones-le bs n, digit-le (get_or bs n false))

-- Between two places the ones grow by at most the distance.
pub ones_mono :
    (bs : List Bool) (m d : ℕ) → (ones bs m ≤ ones bs (m + d)) × (ones bs (m + d) ≤ ones bs m + d)
unfolding ones
ones_mono bs m zero = let e : m + 0 ≡ m = omega arith in rw e (omega arith, omega arith)
ones_mono bs m (suc d) =
    let e : m + suc d ≡ suc (m + d) = omega arith in
    let (lo, hi) = ones_mono bs m d in
    let last = digit-le (get_or bs (m + d) false) in rw e (omega arith, omega arith)

pub ones_bounds :
    (bs : List Bool) (m n : ℕ) → m ≤ n → (ones bs m ≤ ones bs n) × (ones bs n + m ≤ ones bs m + n)
ones_bounds bs m n h =
    let e : m + (n - m) ≡ n = omega arith in
    let (lo, hi) = ones_mono bs m (n - m) in
    let hi' : ones bs n ≤ ones bs m + (n - m) = rw e at hi in (rw e at lo, omega arith)

module _ (io : Buffers) {bi : BitIndex} {bs : List Bool} (ix : IsIndexed bi bs) where
  -- `rank0` counts the zeros up to and with the index.
  pub rank0-ones : (i : ℕ) → i < length bs → rank0 io bi i ≡ done (i + 1 - ones bs (i + 1))
  unfolding rank0
  rank0-ones i h =
      let most = ones-le bs (i + 1) in
      let ordered : ltb (1 + i) (ones bs (i + 1)) ≡ false = ground arith in
      let e : 1 + i ≡ i + 1 = omega arith in rw (rank1-ones io ix i h, ordered, e) refl

  -- On a bit index of the bits `bs` and a range within the array, its end excluded,
  -- `rank1_from_range` answers the number of ones in it and `rank0_from_range` the number of zeros.
  pub ranks_from_range :
      (start end : ℕ)
      → start ≤ end
      → end ≤ length bs
      → (rank1_from_range io bi start end ≡ done (ones bs end - ones bs start))
        × (rank0_from_range io bi start end ≡ done ((end - start) - (ones bs end - ones bs start)))
  unfolding rank1_from_range rank0_from_range
  ranks_from_range start end h k = elim (Bool-cases (start == end)) [
    | inl same ↦
        let e : start ≡ end = ground arith in
        let none1 : ones bs end - ones bs start ≡ 0 = rw e (omega arith) in
        let none0 : end - start - (ones bs end - ones bs start) ≡ 0 = omega arith in
        rw (same, none0, none1) (refl, refl)
    | inr some_bits ↦
        let wide : start < end = ground arith in
        let pos : ltb end 1 ≡ false = ground arith in
        let back : end - 1 + 1 ≡ end = omega arith in
        let last1 = rw back at (rank1-ones io ix (end - 1) (omega arith)) in
        let last0 = rw back at (rank0-ones (end - 1) (omega arith)) in
        let most = ones-le bs end in
        elim (Bool-cases (start == 0)) [
          | inl first ↦
              let zero_start : start ≡ 0 = ground arith in
              let none_before : ones bs start ≡ 0 = ap (ones bs) zero_start ∙ unfold ones in refl in
              let e1 : ones bs end - ones bs start ≡ ones bs end = omega arith in
              let e0 : end - start - (ones bs end - ones bs start) ≡ end - ones bs end =
                omega arith in
              rw (some_bits, pos, last1, last0, first, e0, e1) (refl, refl)
          | inr later ↦
              let start_pos : 0 < start = ground arith in
              let back' : start - 1 + 1 ≡ start = omega arith in
              let before1 = rw back' at (rank1-ones io ix (start - 1) (omega arith)) in
              let before0 = rw back' at (rank0-ones (start - 1) (omega arith)) in
              let (lo, hi) = ones_bounds bs start end h in
              let least = ones-le bs start in
              let ordered1 : ltb (ones bs end) (ones bs start) ≡ false = ground arith in
              let ordered0 : ltb (end - ones bs end) (start - ones bs start) ≡ false =
                ground arith in
              let e0 : end - ones bs end - (start - ones bs start)
                  ≡ end - start - (ones bs end - ones bs start) =
                omega arith in
              rw (some_bits, pos, last1, last0, later, before1, before0, ordered1, ordered0, e0)
                (refl, refl)
        ]
  ]
