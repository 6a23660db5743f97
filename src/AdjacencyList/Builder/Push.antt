-- ===== src/AdjacencyList/Builder/Push.antt =====
-- What a push appends to the bits and to the numbers.
use native.Mathlib.Nat.{one-le-pow}
use mathlib.Core.List.{append_assoc, append-nil}
use tdb_succinct_wasm.Base.{
  ℕ, zero, suc, ◌-◌, ◌^◌, ◌≤◌, ◌<◌, ◌≡◌, refl, ap, ◌∙◌, Bool, true, false, ◌&&◌, ◌||◌, List, [],
  ◌∷◌, ◌++◌, inl, inr, All, ltb, leb, ◌==◌, replicate, if◌then◌else◌, done, ◌>>=◌, Bool-cases,
  arith,
}
use tdb_succinct_wasm.Words.{Buffers}
use tdb_succinct_wasm.LogArray.Builder as NumBuilder
use tdb_succinct_wasm.LogArray.Builder.Push as NumPush
use tdb_succinct_wasm.LogArray.Builder.Step as NumStep
use tdb_succinct_wasm.LogArray.Builder.Finalize.{push_vec-Encodes, new-Encodes}
use tdb_succinct_wasm.BitArray.Builder as BitBuilder
use tdb_succinct_wasm.BitArray.Builder.Push as BitPush
use tdb_succinct_wasm.AdjacencyList.Builder.{UnindexedBuilder, push_skip, push, push_all, new}

-- The builder took these bits and these numbers.
pub record IsBuilding (b : UnindexedBuilder) (bs : List Bool) (vs : List ℕ) : Type 0 where
  pub bits : BitPush.Encodes [] b.bitarray bs
  pub nums : NumPush.Encodes [] b.nums vs

-- The bits between the right-hand side before and one of `left`: a 0 where the left-hand side is the
-- same; otherwise a 1 for each left-hand side from the last one on, and none for a last one of 0.
unfoldable pub marks : ℕ → ℕ → List Bool
marks zero left = replicate (left - 1) true
marks (suc last) left = if left == suc last then false ∷ [] else replicate (left - suc last) true

All-zeros : (n w : ℕ) → All (λ v. v < 2 ^ w) (replicate n 0)
All-zeros zero w = tt
All-zeros (suc n) w = (omega (arith, one-le-pow w 2 (omega arith)), All-zeros n w)

module _ (io : Buffers) {bs : List Bool} {vs : List ℕ} where
  -- Ones and zeros at once.
  bulk :
      (b : UnindexedBuilder) (k m : ℕ)
      → IsBuilding b bs vs
      → (b' : UnindexedBuilder) × ((NumBuilder.push_vec io b.nums (replicate m 0) >>= λ nums.
            done (record b {
              bitarray = BitBuilder.push_all io b.bitarray (replicate k true);
              nums = nums;
            }))
          ≡ done b')
        × IsBuilding b' (bs ++ replicate k true) (vs ++ replicate m 0)
        × (b'.nums.width ≡ b.nums.width)
  bulk b k m h =
      let (nums, run, width, encodes) =
        push_vec-Encodes io (replicate m 0) h.nums (All-zeros m b.nums.width) in
      (
        record b { bitarray = BitBuilder.push_all io b.bitarray (replicate k true); nums = nums },
        rw run refl,
        record { bits = BitPush.push_all-Encodes io (replicate k true) h.bits; nums = encodes },
        width,
      )

  push_skip-first :
      (b : UnindexedBuilder) (left : ℕ)
      → 0 ≡ b.last_left
      → IsBuilding b bs vs
      → 1 ≤ left
      → (b' : UnindexedBuilder) × (push_skip io b (left - b.last_left) ≡ done b')
        × IsBuilding b' (bs ++ replicate (left - 1) true) (vs ++ replicate (left - 0 - 1) 0)
        × (b'.nums.width ≡ b.nums.width)
  unfolding push_skip
  push_skip-first b left e h p =
      let at_start : (b.last_left == 0) ≡ true = ground (arith, e) in
      let skip : left - b.last_left ≡ left = omega (arith, e) in
      elim (Bool-cases (left == 1)) [
        | inl one ↦
            let is_one : left ≡ 1 = ground (arith, one) in
            rw (skip, at_start, is_one)
              (
                b,
                refl,
                record { bits = rw (append-nil bs) h.bits; nums = rw (append-nil vs) h.nums },
                refl,
              )
        | inr more ↦
            let some_skip : (left == 0) ≡ false = ground arith in
            let same : left - 0 - 1 ≡ left - 1 = omega arith in
            rw (skip, at_start, more, some_skip, same) (bulk b (left - 1) (left - 1) h)
      ]

  push_skip-later :
      (b : UnindexedBuilder) (left last : ℕ)
      → suc last ≡ b.last_left
      → IsBuilding b bs vs
      → suc last ≤ left
      → (b' : UnindexedBuilder) × (push_skip io b (left - b.last_left) ≡ done b')
        × IsBuilding b' (bs ++ marks (suc last) left) (vs ++ replicate (left - suc last - 1) 0)
        × (b'.nums.width ≡ b.nums.width)
  unfolding push_skip marks
  push_skip-later b left last e h o =
      let at_start : (b.last_left == 0) ≡ false = ground (arith, e) in
      let skip : left - b.last_left ≡ left - suc last = omega (arith, e) in
      elim (Bool-cases (left == suc last)) [
        | inl equal ↦
            let none_skipped : (left - suc last == 0) ≡ true = ground (arith, equal) in
            let no_zeros : left - suc last - 1 ≡ 0 = ground (arith, equal) in
            rw (skip, at_start, none_skipped, equal, no_zeros)
              (
                record b { bitarray = BitBuilder.push io b.bitarray false },
                refl,
                record {
                  bits = BitPush.push-Encodes io h.bits false;
                  nums = rw (append-nil vs) h.nums;
                },
                refl,
              )
        | inr other ↦
            let some_skip : (left - suc last == 0) ≡ false = ground (arith, other) in
            rw (skip, at_start, some_skip, other) (bulk b (left - suc last) (left - suc last - 1) h)
      ]

  by_last :
      (b : UnindexedBuilder) (left last : ℕ)
      → last ≡ b.last_left
      → IsBuilding b bs vs
      → 1 ≤ left
      → b.last_left ≤ left
      → (b' : UnindexedBuilder) × (push_skip io b (left - b.last_left) ≡ done b')
        × IsBuilding b' (bs ++ marks last left) (vs ++ replicate (left - last - 1) 0)
        × (b'.nums.width ≡ b.nums.width)
  unfolding marks
  by_last b left zero e h p o = push_skip-first b left e h p
  by_last b left (suc last) e h p o = push_skip-later b left last e h (omega (arith, o, e))

  push_skip-IsBuilding :
      (b : UnindexedBuilder) (left : ℕ)
      → IsBuilding b bs vs
      → 1 ≤ left
      → b.last_left ≤ left
      → (b' : UnindexedBuilder) × (push_skip io b (left - b.last_left) ≡ done b')
        × IsBuilding b' (bs ++ marks b.last_left left) (vs ++ replicate (left - b.last_left - 1) 0)
        × (b'.nums.width ≡ b.nums.width)
  push_skip-IsBuilding b left h p o = by_last b left b.last_left refl h p o

  -- A pair above the last one, with a left-hand side of 1 or more and a right-hand side that fits
  -- the width, is taken without a panic: the bits grow by the marks up to the left-hand side, the
  -- numbers by a 0 for each left-hand side passed over and the right-hand side.
  pub push-IsBuilding :
      (b : UnindexedBuilder) (left right : ℕ)
      → IsBuilding b bs vs
      → 1 ≤ left
      → b.last_left ≤ left
      → (left ≡ b.last_left → b.last_right < right)
      → right < 2 ^ b.nums.width
      → (b' : UnindexedBuilder) × (push io b left right ≡ done b')
        × IsBuilding b'
            (bs ++ marks b.last_left left)
            ((vs ++ replicate (left - b.last_left - 1) 0) ++ (right ∷ []))
        × (b'.last_left ≡ left)
        × (b'.last_right ≡ right)
        × (b'.nums.width ≡ b.nums.width)
  unfolding push
  push-IsBuilding b left right h p o above fits =
      let (skipped, run, building, width) = push_skip-IsBuilding b left h p o in
      let (nums, run', width', encodes) =
        NumStep.push-Encodes io building.nums right (rw width fits) in
      let in_order : (ltb left b.last_left || (left == b.last_left && leb right b.last_right))
          ≡ false =
        ground (arith, above) in
      (
        record { bitarray = skipped.bitarray; nums = nums; last_left = left; last_right = right },
        rw (in_order, run, run') refl,
        record { bits = building.bits; nums = encodes },
        refl,
        refl,
        width' ∙ width,
      )

-- A new builder took nothing.
pub new-IsBuilding : (w : ℕ) → 0 < w → w ≤ 64 → IsBuilding (new w) [] []
unfolding new
new-IsBuilding w lo hi = record { bits = BitPush.new-Encodes []; nums = new-Encodes [] w lo hi }

-- The pairs go up from a last one, with left-hand sides of 1 or more and right-hand sides of `w`
-- bits.
unfoldable pub IsAscending : ℕ → ℕ → ℕ → List (ℕ × ℕ) → Type 0
IsAscending w last_left last_right [] = Unit {0}
IsAscending w last_left last_right ((left, right) ∷ pairs) =
    (1 ≤ left)
    × (last_left ≤ left)
    × (left ≡ last_left → last_right < right)
    × (right < 2 ^ w)
    × IsAscending w left right pairs

-- The bits and the numbers for a list of pairs behind a last left-hand side.
unfoldable pub bits_of : ℕ → List (ℕ × ℕ) → List Bool
bits_of last [] = []
bits_of last ((left, right) ∷ pairs) = marks last left ++ bits_of left pairs

unfoldable pub nums_of : ℕ → List (ℕ × ℕ) → List ℕ
nums_of last [] = []
nums_of last ((left, right) ∷ pairs) =
    (replicate (left - last - 1) 0 ++ (right ∷ [])) ++ nums_of left pairs

-- On a builder that took the bits `bs` and the numbers `vs`, `push_all` of a list of pairs that go up
-- from the last one, with left-hand sides of 1 or more and right-hand sides that fit the width, does
-- not panic, and the builder then took the bits and numbers of the pairs behind these.
pub push_all-IsBuilding :
    (io : Buffers) (pairs : List (ℕ × ℕ)) {bs : List Bool} {vs : List ℕ} (b : UnindexedBuilder)
    → IsBuilding b bs vs
    → IsAscending b.nums.width b.last_left b.last_right pairs
    → (b' : UnindexedBuilder) × (push_all io b pairs ≡ done b')
      × IsBuilding b' (bs ++ bits_of b.last_left pairs) (vs ++ nums_of b.last_left pairs)
      × (b'.nums.width ≡ b.nums.width)
unfolding push_all IsAscending bits_of nums_of
push_all-IsBuilding io [] {bs} {vs} b h up =
    (b, refl, record { bits = rw (append-nil bs) h.bits; nums = rw (append-nil vs) h.nums }, refl)
push_all-IsBuilding io ((left, right) ∷ pairs) {bs} {vs} b h (p, o, above, fits, up) =
    let (b1, run, building, left_is, right_is, width) =
      push-IsBuilding io b left right h p o above fits in
    let up1 : IsAscending b1.nums.width b1.last_left b1.last_right pairs =
      rw (width, left_is, right_is) up in
    let (b', run', building', width') = push_all-IsBuilding io pairs b1 building up1 in
    let ones = marks b.last_left left in
    let zeros = replicate (left - b.last_left - 1) 0 ++ (right ∷ []) in
    let all_bits : (bs ++ ones) ++ bits_of b1.last_left pairs ≡ bs ++ (ones ++ bits_of left pairs) =
      ap (λ l. (bs ++ ones) ++ bits_of l pairs) left_is
      ∙ append_assoc bs ones (bits_of left pairs) in
    let all_nums : ((vs ++ replicate (left - b.last_left - 1) 0) ++ (right ∷ []))
          ++ nums_of b1.last_left pairs
        ≡ vs ++ (zeros ++ nums_of left pairs) =
      ap (λ l. ((vs ++ replicate (left - b.last_left - 1) 0) ++ (right ∷ [])) ++ nums_of l pairs)
        left_is
      ∙ ap (λ xs. xs ++ nums_of left pairs)
          (append_assoc vs (replicate (left - b.last_left - 1) 0) (right ∷ []))
      ∙ append_assoc vs zeros (nums_of left pairs) in
    (
      b',
      rw run run',
      record { bits = rw all_bits at building'.bits; nums = rw all_nums at building'.nums },
      width' ∙ width,
    )
