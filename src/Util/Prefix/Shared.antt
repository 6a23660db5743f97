-- ===== src/Util/Prefix/Shared.antt =====
-- What a search through a front-coded list knows of a string from what it shares with the one before.
use Prim.Native.Nat.{compare, Ordering}
use tdb_succinct_wasm.Base.{
  ℕ, zero, suc, ◌+◌, ◌<◌, ◌≡◌, refl, sym, ap, ◌∙◌, true, false, inl, inr, List, [], ◌∷◌, drop, ◌==◌,
  Bool-cases, arith,
}
use tdb_succinct_wasm.Util.Prefix.{lexicographic, common, common_same, common_other}
use tdb_succinct_wasm.Util.Prefix.Compare.{lexicographic_same, lexicographic_other}

-- The next string shares less with the last one than the query does: it is beyond the query.
pub lexicographic-shared_less :
    (q l c : List ℕ)
    → lexicographic l c ≡ Ordering.lt
    → common l c < common q l
    → lexicographic q c ≡ Ordering.lt
unfolding lexicographic common
lexicographic-shared_less [] l c e h = absurd (omega arith)
lexicographic-shared_less (x ∷ q) [] c e h = absurd (omega arith)
lexicographic-shared_less (x ∷ q) (y ∷ l) [] e h = absurd cc
lexicographic-shared_less (x ∷ q) (y ∷ l) (z ∷ c) e h = elim (Bool-cases (x == y)) [
  | inr f ↦ let k = common_other x y q l f in absurd (omega (arith, h, k))
  | inl t ↦
      let same : x ≡ y = ground (arith, t) in
      elim (Bool-cases (y == z)) [
        | inl t' ↦
            let same' : (x == z) ≡ true = rw same t' in
            lexicographic_same x z q c same'
            ∙ lexicographic-shared_less q l c (sym (lexicographic_same y z l c t') ∙ e)
                (omega (arith, h, common_same x y q l t, common_same y z l c t'))
        | inr f' ↦
            let other : (x == z) ≡ false = rw same f' in
            lexicographic_other x z q c other
            ∙ ap (λ n. compare n z) same
            ∙ sym (lexicographic_other y z l c f')
            ∙ e
      ]
]

-- It shares more: the query stands to it as to the last one.
pub lexicographic-shared_more :
    (q l c : List ℕ)
    → lexicographic q l ≡ Ordering.gt
    → common q l < common l c
    → (lexicographic q c ≡ Ordering.gt) × (common q c ≡ common q l)
unfolding lexicographic common
lexicographic-shared_more [] [] c e h = absurd cc
lexicographic-shared_more [] (y ∷ l) c e h = absurd cc
lexicographic-shared_more (x ∷ q) [] c e h = absurd (omega arith)
lexicographic-shared_more (x ∷ q) (y ∷ l) [] e h = absurd (omega arith)
lexicographic-shared_more (x ∷ q) (y ∷ l) (z ∷ c) e h = elim (Bool-cases (y == z)) [
  | inr f ↦ let k = common_other y z l c f in absurd (omega (arith, h, k))
  | inl t ↦
      let same : y ≡ z = ground (arith, t) in
      elim (Bool-cases (x == y)) [
        | inl t' ↦
            let same' : (x == z) ≡ true = rw (sym same) t' in
            let (greater, shared) =
              lexicographic-shared_more q l c (sym (lexicographic_same x y q l t') ∙ e)
                (omega (arith, h, common_same x y q l t', common_same y z l c t)) in
            (
              lexicographic_same x z q c same' ∙ greater,
              common_same x z q c same' ∙ ap suc shared ∙ sym (common_same x y q l t'),
            )
        | inr f' ↦
            let other : (x == z) ≡ false = rw (sym same) f' in
            (
              lexicographic_other x z q c other
                  ∙ ap (compare x) (sym same)
                  ∙ sym (lexicographic_other x y q l f')
                  ∙ e,
              common_other x z q c other ∙ sym (common_other x y q l f'),
            )
      ]
]

-- It shares as much: what is behind the shared bytes decides.
pub lexicographic-shared_same :
    (k : ℕ) (q l c : List ℕ)
    → k ≡ common q l
    → k ≡ common l c
    → (lexicographic q c ≡ lexicographic (drop k q) (drop k c))
      × (common q c ≡ k + common (drop k q) (drop k c))
unfolding common
lexicographic-shared_same zero q l c h h' = (refl, omega arith)
lexicographic-shared_same (suc k) [] l c h h' = absurd (omega (arith, h))
lexicographic-shared_same (suc k) (x ∷ q) [] c h h' = absurd (omega (arith, h))
lexicographic-shared_same (suc k) (x ∷ q) (y ∷ l) [] h h' = absurd (omega (arith, h'))
lexicographic-shared_same (suc k) (x ∷ q) (y ∷ l) (z ∷ c) h h' = elim (Bool-cases (x == y)) [
  | inr f ↦ absurd (omega (arith, h, common_other x y q l f))
  | inl t ↦ elim (Bool-cases (y == z)) [
    | inr f' ↦ absurd (omega (arith, h', common_other y z l c f'))
    | inl t' ↦
        let same : (x == z) ≡ true = ground (arith, t, t') in
        let (order, shared) =
          lexicographic-shared_same k q l c (omega (arith, h, common_same x y q l t))
            (omega (arith, h', common_same y z l c t')) in
        (lexicographic_same x z q c same ∙ order, omega (arith, common_same x z q c same, shared))
  ]
]
