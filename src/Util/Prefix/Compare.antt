-- ===== src/Util/Prefix/Compare.antt =====
-- `find_common_prefix_ord` is the order of byte strings.
use Prim.Native.Nat.{compare, Ordering}
use tdb_succinct_wasm.Base.{
  ℕ, suc, ◌<◌, ◌≡◌, refl, ap, ◌∙◌, true, false, inl, inr, some, List, [], ◌∷◌, length, get_elem?,
  ◌==◌, done, Bool-cases, arith,
}
use tdb_succinct_wasm.Words.{byte_at}
use tdb_succinct_wasm.Util.{find_common_prefix_ord}
use tdb_succinct_wasm.Util.Prefix.{
  lexicographic, common, find_common_prefix_lem, common_same, common_other,
}

-- How two byte strings part.
data Parting (b1 b2 : List ℕ) : Type 0 where
  same :
      common b1 b2 ≡ length b1
      → length b1 ≡ length b2
      → lexicographic b1 b2 ≡ Ordering.eq
      → Parting b1 b2
  shorter :
      common b1 b2 ≡ length b1
      → length b1 < length b2
      → lexicographic b1 b2 ≡ Ordering.lt
      → Parting b1 b2
  longer :
      common b1 b2 ≡ length b2
      → length b2 < length b1
      → lexicographic b1 b2 ≡ Ordering.gt
      → Parting b1 b2
  differ :
      (x y : ℕ)
      → common b1 b2 < length b1
      → common b1 b2 < length b2
      → get_elem? b1 (common b1 b2) ≡ some x
      → get_elem? b2 (common b1 b2) ≡ some y
      → lexicographic b1 b2 ≡ compare x y
      → Parting b1 b2

pub lexicographic_same :
    (x y : ℕ) (xs ys : List ℕ)
    → (x == y) ≡ true
    → lexicographic (x ∷ xs) (y ∷ ys) ≡ lexicographic xs ys
unfolding lexicographic
lexicographic_same x y xs ys e = ground arith

pub lexicographic_other :
    (x y : ℕ) (xs ys : List ℕ) → (x == y) ≡ false → lexicographic (x ∷ xs) (y ∷ ys) ≡ compare x y
unfolding lexicographic
lexicographic_other x y xs ys e = ground arith

Parting_cons :
    (x y : ℕ) (xs ys : List ℕ) → (x == y) ≡ true → Parting xs ys → Parting (x ∷ xs) (y ∷ ys)
Parting_cons x y xs ys e (same c n l) =
    let k = common_same x y xs ys e in
    let l' = lexicographic_same x y xs ys e in same (k ∙ ap suc c) (ap suc n) (l' ∙ l)
Parting_cons x y xs ys e (shorter c n l) =
    let k = common_same x y xs ys e in
    let l' = lexicographic_same x y xs ys e in shorter (k ∙ ap suc c) (omega (arith, n)) (l' ∙ l)
Parting_cons x y xs ys e (longer c n l) =
    let k = common_same x y xs ys e in
    let l' = lexicographic_same x y xs ys e in longer (k ∙ ap suc c) (omega (arith, n)) (l' ∙ l)
Parting_cons x y xs ys e (differ a b p q g1 g2 l) =
    let k = common_same x y xs ys e in
    let l' = lexicographic_same x y xs ys e in
    differ a b (omega (arith, k, p)) (omega (arith, k, q)) (rw k g1) (rw k g2) (l' ∙ l)

partings : (b1 b2 : List ℕ) → Parting b1 b2
unfolding common lexicographic
partings [] [] = same refl refl refl
partings [] (y ∷ ys) = shorter refl (omega arith) refl
partings (x ∷ xs) [] = longer refl (omega arith) refl
partings (x ∷ xs) (y ∷ ys) =
    let rest = partings xs ys in
    elim (Bool-cases (x == y)) [
      | inl t ↦ Parting_cons x y xs ys t rest
      | inr f ↦
          let k = common_other x y xs ys f in
          differ x y (omega (arith, k)) (omega (arith, k)) (rw k refl) (rw k refl)
            (lexicographic_other x y xs ys f)
    ]

byte_at-some : (b : List ℕ) (i x : ℕ) → get_elem? b i ≡ some x → byte_at b i ≡ done x
byte_at-some b i x e = rw (e, byte_at) refl

-- For two byte strings, `find_common_prefix_ord` answers the length of their longest common prefix
-- together with their lexicographic order.
pub find_common_prefix_ord_lem :
    (b1 b2 : List ℕ) → find_common_prefix_ord b1 b2 ≡ done (common b1 b2, lexicographic b1 b2)
unfolding find_common_prefix_ord
find_common_prefix_ord_lem b1 b2 =
    let found = find_common_prefix_lem b1 b2 in
    elim (partings b1 b2) [
      | same c n l ↦
          let t1 : (common b1 b2 == length b1) ≡ true = ground (arith, c) in
          let t2 : (length b1 == length b2) ≡ true = ground (arith, n) in rw (found, t1, t2, l) refl
      | shorter c n l ↦
          let t1 : (common b1 b2 == length b1) ≡ true = ground (arith, c) in
          let t2 : (length b1 == length b2) ≡ false = ground (arith, n) in
          let t3 : (length b1 == common b1 b2) ≡ true = ground (arith, c) in
          rw (found, t1, t2, t3, l) refl
      | longer c n l ↦
          let t1 : (common b1 b2 == length b1) ≡ false = ground (arith, c, n) in
          let t3 : (length b1 == common b1 b2) ≡ false = ground (arith, c, n) in
          let t4 : (length b2 == common b1 b2) ≡ true = ground (arith, c) in
          rw (found, t1, t3, t4, l) refl
      | differ x y p q g1 g2 l ↦
          let t1 : (common b1 b2 == length b1) ≡ false = ground (arith, p) in
          let t3 : (length b1 == common b1 b2) ≡ false = ground (arith, p) in
          let t4 : (length b2 == common b1 b2) ≡ false = ground (arith, q) in
          let a1 = byte_at-some b1 (common b1 b2) x g1 in
          let a2 = byte_at-some b2 (common b1 b2) y g2 in rw (found, t1, t3, t4, a1, a2, l) refl
    ]
