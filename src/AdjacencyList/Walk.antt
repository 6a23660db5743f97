-- ===== src/AdjacencyList/Walk.antt =====
-- The bits and the numbers of a list of pairs stand for these pairs.
use mathlib.Core.List.{append_assoc}
use mathlib.Core.Logic.{◌≢◌}
use tdb_succinct_wasm.Base.{
  ℕ, zero, suc, ◌+◌, ◌-◌, ◌<◌, ◌≡◌, refl, sym, ap, ◌∙◌, Bool, true, false, List, [], ◌∷◌, ◌++◌, inl,
  inr, length, length-append, length-replicate, drop, get_or-drop, drop_all, replicate, All, ◌==◌,
  if◌then◌else◌, Bool-cases, arith,
}
use tdb_succinct_wasm.BitArray.Get.{ones}
use tdb_succinct_wasm.AdjacencyList.Builder.Push.{marks, IsAscending, bits_of, nums_of}
use tdb_succinct_wasm.AdjacencyList.Pairs.{pairs_from, left_next}

-- The pairs, read from the front: a 1 ends the left-hand side, and a number of 0 is no pair.
walk : ℕ → List Bool → List ℕ → List (ℕ × ℕ)
walk left [] vs = []
walk left (b ∷ bs) [] = []
walk left (b ∷ bs) (v ∷ vs) =
    let rest = walk (if b then left + 1 else left) bs vs in
    if v == 0 then rest else (left, v) ∷ rest

pairs_from-walk :
    (n i : ℕ) (bs : List Bool) (vs : List ℕ)
    → i + n ≡ length bs
    → length vs ≡ length bs
    → pairs_from n i bs vs ≡ walk (ones bs i + 1) (drop i bs) (drop i vs)
unfolding pairs_from walk
pairs_from-walk zero i bs vs e s = rw (drop_all bs i (omega arith)) refl
pairs_from-walk (suc n) i bs vs e s =
    let rest = pairs_from-walk n (i + 1) bs vs (omega arith) s in
    rw
      (get_or-drop bs i false (omega arith), get_or-drop vs i 0 (omega arith), rest, left_next bs i)
      refl

-- Left-hand sides that are passed over.
walk-zeros :
    (j left : ℕ) (bs : List Bool) (vs : List ℕ)
    → walk left (replicate j true ++ bs) (replicate j 0 ++ vs) ≡ walk (left + j) bs vs
unfolding walk
walk-zeros zero left bs vs = ap (λ l. walk l bs vs) (omega arith)
walk-zeros (suc j) left bs vs = walk-zeros j (left + 1) bs vs ∙ ap (λ l. walk l bs vs) (omega arith)

walk_pair :
    (left v : ℕ) (b : Bool) (bs : List Bool) (vs : List ℕ)
    → 0 < v
    → walk left (b ∷ bs) (v ∷ vs) ≡ (left, v) ∷ walk (if b then left + 1 else left) bs vs
unfolding walk
walk_pair left v b bs vs h = let e : (v == 0) ≡ false = ground arith in rw e refl

abbrev pub IsPositive : List (ℕ × ℕ) → Type 0
IsPositive = All (λ p. 0 < p.1)

walk-skip :
    (j k m last r right : ℕ) (bits : List Bool) (nums : List ℕ) (rest : List (ℕ × ℕ))
    → k ≡ suc j
    → m ≡ j
    → 0 < r
    → walk (suc last + k) (bits ++ (true ∷ [])) (right ∷ nums) ≡ rest
    → walk
        (suc last)
        ((replicate k true ++ bits) ++ (true ∷ []))
        (r ∷ ((replicate m 0 ++ (right ∷ [])) ++ nums))
      ≡ (suc last, r) ∷ rest
walk-skip j k m last r right bits nums rest e z h w =
    let bits_split = append_assoc (replicate j true) bits (true ∷ []) in
    let nums_split = append_assoc (replicate j 0) (right ∷ []) nums in
    let left : suc last + 1 + j ≡ suc last + k = omega arith in
    rw (e, z)
      (walk_pair (suc last) r true _ _ h
        ∙ ap (λ ps. (suc last, r) ∷ ps)
            (ap (λ l. walk (suc last + 1) l ((replicate j 0 ++ (right ∷ [])) ++ nums)) bits_split
              ∙ ap (λ l. walk (suc last + 1) (replicate j true ++ (bits ++ (true ∷ []))) l)
                  nums_split
              ∙ walk-zeros j (suc last + 1) (bits ++ (true ∷ [])) (right ∷ nums)
              ∙ ap (λ l. walk l (bits ++ (true ∷ [])) (right ∷ nums)) left
              ∙ w))

walk-same :
    (left m last r right : ℕ) (bits : List Bool) (nums : List ℕ) (rest : List (ℕ × ℕ))
    → left ≡ suc last
    → m ≡ 0
    → 0 < r
    → walk left (bits ++ (true ∷ [])) (right ∷ nums) ≡ rest
    → walk
        (suc last)
        (((false ∷ []) ++ bits) ++ (true ∷ []))
        (r ∷ ((replicate m 0 ++ (right ∷ [])) ++ nums))
      ≡ (suc last, r) ∷ rest
walk-same left m last r right bits nums rest e z h w = rw z (
    walk_pair (suc last) r false _ _ h
    ∙ ap (λ ps. (suc last, r) ∷ ps)
        (ap (λ l. walk l (bits ++ (true ∷ [])) (right ∷ nums)) (sym e) ∙ w))

-- With a pair whose last bit is still to come.
walk-pairs :
    (pairs : List (ℕ × ℕ)) (w last r : ℕ)
    → 0 < r
    → IsAscending w (suc last) r pairs
    → IsPositive pairs
    → walk (suc last) (bits_of (suc last) pairs ++ (true ∷ [])) (r ∷ nums_of (suc last) pairs)
      ≡ (suc last, r) ∷ pairs
unfolding IsAscending bits_of nums_of marks
walk-pairs [] w last r h up positive = unfold walk in walk_pair (suc last) r true [] [] h
walk-pairs ((zero, right) ∷ pairs) w last r h (p, _, _, _, _) positive = absurd (omega arith)
walk-pairs ((suc left, right) ∷ pairs) w last r h (p, o, above, fits, up) (right_pos, positive) =
    let rest = walk-pairs pairs w left right right_pos up positive in
    elim (Bool-cases (suc left == suc last)) [
      | inl t ↦
          let same : suc left ≡ suc last = ground (arith, t) in
          let none_skipped : suc left - suc last - 1 ≡ 0 = omega arith in
          rw t (
            walk-same (suc left) (suc left - suc last - 1) last r right (bits_of (suc left) pairs)
              (nums_of (suc left) pairs) _ same none_skipped h rest)
      | inr f ↦
          let rest' : walk (suc last + (suc left - suc last))
                (bits_of (suc left) pairs ++ (true ∷ [])) (right ∷ nums_of (suc left) pairs)
              ≡ (suc left, right) ∷ pairs =
            let place : suc last + (suc left - suc last) ≡ suc left = omega (arith, o) in
            rw place rest in
          rw f (
            walk-skip (suc left - suc last - 1) (suc left - suc last) (suc left - suc last - 1) last
              r right (bits_of (suc left) pairs) (nums_of (suc left) pairs) _ (ground (arith, f, o))
              refl h rest')
    ]

-- All the pairs, whose left-hand sides begin anywhere.
walk-all :
    (pairs : List (ℕ × ℕ)) (w : ℕ)
    → IsAscending w 0 0 pairs
    → IsPositive pairs
    → 0 < length pairs
    → walk 1 (bits_of 0 pairs ++ (true ∷ [])) (nums_of 0 pairs) ≡ pairs
unfolding IsAscending bits_of nums_of marks
walk-all [] w up positive h = absurd (omega arith)
walk-all ((zero, right) ∷ pairs) w (p, _, _, _, _) positive h = absurd (omega arith)
walk-all ((suc left, right) ∷ pairs) w (p, o, above, fits, up) (right_pos, positive) h =
    let skipped : suc left - 0 - 1 ≡ left = omega arith in
    let ones : suc left - 1 ≡ left = omega arith in
    let start : 1 + left ≡ suc left = omega arith in
    let bits = bits_of (suc left) pairs in
    let nums = nums_of (suc left) pairs in
    rw (skipped, ones)
      (ap (λ l. walk 1 l ((replicate left 0 ++ (right ∷ [])) ++ nums))
          (append_assoc (replicate left true) bits (true ∷ []))
        ∙ ap (λ l. walk 1 (replicate left true ++ (bits ++ (true ∷ []))) l)
            (append_assoc (replicate left 0) (right ∷ []) nums)
        ∙ walk-zeros left 1 (bits ++ (true ∷ [])) (right ∷ nums)
        ∙ ap (λ l. walk l (bits ++ (true ∷ [])) (right ∷ nums)) start
        ∙ walk-pairs pairs w left right right_pos up positive)

-- As many numbers as bits, but for the first pair.
length-nums_of :
    (pairs : List (ℕ × ℕ)) (w last r : ℕ)
    → IsAscending w (suc last) r pairs
    → length (nums_of (suc last) pairs) ≡ length (bits_of (suc last) pairs)
unfolding IsAscending bits_of nums_of marks
length-nums_of [] w last r up = refl
length-nums_of ((zero, right) ∷ pairs) w last r (p, _, _, _, _) = absurd (omega arith)
length-nums_of ((suc left, right) ∷ pairs) w last r (p, o, above, fits, up) =
    let rest = length-nums_of pairs w left right up in
    let k = suc left - suc last - 1 in
    let zeros : List ℕ = replicate k 0 in
    let nums = nums_of (suc left) pairs in
    let front = length-append zeros (right ∷ []) in
    let whole = length-append (zeros ++ (right ∷ [])) nums in
    let ones = replicate (suc left - suc last) true in
    let bits = length-append ones (bits_of (suc left) pairs) in
    elim (Bool-cases (suc left == suc last)) [
      | inl t ↦
          let same : suc left ≡ suc last = ground (arith, t) in
          rw t (omega (arith, same, rest, front, whole, length-replicate {A = ℕ} k 0))
      | inr f ↦
          let other : suc left ≢ suc last = ground (arith, f) in
          rw f (
            omega (
              arith,
              other,
              o,
              rest,
              front,
              whole,
              bits,
              length-replicate {A = ℕ} k 0,
              length-replicate (suc left - suc last) true,
            ))
    ]

pub length-nums_of_first :
    (pairs : List (ℕ × ℕ)) (w : ℕ)
    → IsAscending w 0 0 pairs
    → 0 < length pairs
    → length (nums_of 0 pairs) ≡ length (bits_of 0 pairs ++ (true ∷ []))
unfolding IsAscending bits_of nums_of marks
length-nums_of_first [] w up h = absurd (omega arith)
length-nums_of_first ((zero, right) ∷ pairs) w (p, _, _, _, _) h = absurd (omega arith)
length-nums_of_first ((suc left, right) ∷ pairs) w (p, o, above, fits, up) h =
    let zeros : List ℕ = replicate (suc left - 0 - 1) 0 in
    let ones = replicate (suc left - 1) true in
    omega (
      arith,
      length-nums_of pairs w left right up,
      length-append zeros (right ∷ []),
      length-append (zeros ++ (right ∷ [])) (nums_of (suc left) pairs),
      length-replicate {A = ℕ} (suc left - 0 - 1) 0,
      length-replicate (suc left - 1) true,
      length-append ones (bits_of (suc left) pairs),
      length-append (ones ++ bits_of (suc left) pairs) (true ∷ []),
    )

-- The specification of the iterator on the bits and numbers of a list of pairs is the list.
pub pairs_from-pairs :
    (pairs : List (ℕ × ℕ)) (w : ℕ)
    → IsAscending w 0 0 pairs
    → IsPositive pairs
    → 0 < length pairs
    → pairs_from
        (length (bits_of 0 pairs ++ (true ∷ [])))
        0
        (bits_of 0 pairs ++ (true ∷ []))
        (nums_of 0 pairs)
      ≡ pairs
unfolding ones
pairs_from-pairs pairs w up positive h =
    pairs_from-walk (length (bits_of 0 pairs ++ (true ∷ []))) 0 (bits_of 0 pairs ++ (true ∷ []))
      (nums_of 0 pairs) (omega arith) (length-nums_of_first pairs w up h)
    ∙ walk-all pairs w up positive h
