-- ===== src/Util/Prefix.antt =====
-- The common prefix and the order that comes with it.
pub mod Compare
pub mod Shared
pub mod Order
use Prim.Native.Nat.{compare, Ordering}
use tdb_succinct_wasm.Base.{
  ℕ, zero, suc, ◌+◌, ◌-◌, ◌*◌, ◌/◌, ◌%◌, ◌≤◌, ◌<◌, min, ◌≡◌, ◌≢◌, refl, sym, ap, ◌∙◌, Bool, true,
  false, ◌&&◌, inl, inr, some, none, List, [], ◌∷◌, ◌++◌, length, length-append, length-replicate,
  get_elem?, get_or, get_elem?-eq-get_or, replicate, ltb, ◌==◌, Run, done, ◌>>=◌, Bool-cases, arith,
}
use tdb_succinct_wasm.Words.{byte_at}
use tdb_succinct_wasm.Util.{
  common_prefix_loop, find_common_prefix, find_common_prefix_ord, write_padding,
}

-- The order of byte strings, byte by byte, a proper prefix before what it begins.
unfoldable pub lexicographic : List ℕ → List ℕ → Ordering
lexicographic [] [] = Ordering.eq
lexicographic [] (y ∷ ys) = Ordering.lt
lexicographic (x ∷ xs) [] = Ordering.gt
lexicographic (x ∷ xs) (y ∷ ys) = elim (compare x y) [
  | Ordering.eq ↦ lexicographic xs ys
  | Ordering.lt ↦ Ordering.lt
  | Ordering.gt ↦ Ordering.gt
]

-- The length of the longest common prefix.
unfoldable pub common : List ℕ → List ℕ → ℕ
common [] ys = 0
common (x ∷ xs) [] = 0
common (x ∷ xs) (y ∷ ys) = let rest = common xs ys in elim (x == y) [ true ↦ suc rest | false ↦ 0 ]

pub common_same :
    (x y : ℕ) (xs ys : List ℕ) → (x == y) ≡ true → common (x ∷ xs) (y ∷ ys) ≡ suc (common xs ys)
unfolding common
common_same x y xs ys e = rw (e, common) refl

pub common_other : (x y : ℕ) (xs ys : List ℕ) → (x == y) ≡ false → common (x ∷ xs) (y ∷ ys) ≡ 0
unfolding common
common_other x y xs ys e = rw (e, common) refl

-- What is left of a slice past an index.
Rest : List ℕ → ℕ → List ℕ → Type 0
Rest b c xs = (length b ≡ c + length xs) × ((k : ℕ) → get_elem? b (c + k) ≡ get_elem? xs k)

Rest-suc : (b : List ℕ) (c x : ℕ) (xs : List ℕ) → Rest b c (x ∷ xs) → Rest b (c + 1) xs
unfolding Rest
Rest-suc b c x xs (n, r) =
    (omega (arith, n), λ k. let e : c + 1 + k ≡ c + suc k = omega arith in rw e (r (suc k)))

byte_at-Rest : (b : List ℕ) (c x : ℕ) (xs : List ℕ) → Rest b c (x ∷ xs) → byte_at b c ≡ done x
unfolding Rest
byte_at-Rest b c x xs (n, r) =
    let e : c + 0 ≡ c = omega arith in
    let here : get_elem? b c ≡ some x = rw e at (r 0) in rw (here, byte_at) refl

common_prefix_loop_lem :
    (fuel : ℕ) (b1 b2 : List ℕ) (c : ℕ) (xs ys : List ℕ)
    → length xs < fuel
    → Rest b1 c xs
    → Rest b2 c ys
    → common_prefix_loop fuel b1 b2 c ≡ done (c + common xs ys)
unfolding common_prefix_loop Rest
common_prefix_loop_lem zero b1 b2 c xs ys h r1 r2 = absurd (omega arith)
common_prefix_loop_lem (suc fuel) b1 b2 c [] ys h (n1, r1) r2 =
    let e1 : ltb c (length b1) ≡ false = ground (arith, n1) in
    let e : c + 0 ≡ c = omega arith in rw e1 (unfold common in ap done (sym e))
common_prefix_loop_lem (suc fuel) b1 b2 c (x ∷ xs) [] h (n1, r1) (n2, r2) =
    let e1 : ltb c (length b1) ≡ true = ground (arith, n1) in
    let e2 : ltb c (length b2) ≡ false = ground (arith, n2) in
    let e : c + 0 ≡ c = omega arith in rw (e1, e2) (unfold common in ap done (sym e))
common_prefix_loop_lem (suc fuel) b1 b2 c (x ∷ xs) (y ∷ ys) h r1 r2 =
    let e1 : ltb c (length b1) ≡ true = ground (arith, r1.0) in
    let e2 : ltb c (length b2) ≡ true = ground (arith, r2.0) in
    let a1 = byte_at-Rest b1 c x xs r1 in
    let a2 = byte_at-Rest b2 c y ys r2 in
    let rest =
      common_prefix_loop_lem fuel b1 b2 (c + 1) xs ys (omega arith) (Rest-suc b1 c x xs r1)
        (Rest-suc b2 c y ys r2) in
    elim (Bool-cases (x == y)) [
      | inl t ↦
          let e : c + 1 + common xs ys ≡ c + suc (common xs ys) = omega arith in
          rw (e1, e2, a1, a2, t, common_same x y xs ys t) (rest ∙ ap done e)
      | inr f ↦
          let e : c + 0 ≡ c = omega arith in
          rw (e1, e2, a1, a2, f, common_other x y xs ys f) (ap done (sym e))
    ]

pub find_common_prefix_lem : (b1 b2 : List ℕ) → find_common_prefix b1 b2 ≡ done (common b1 b2)
unfolding find_common_prefix Rest
find_common_prefix_lem b1 b2 =
    common_prefix_loop_lem (length b1 + 1) b1 b2 0 b1 b2 (omega arith)
      (omega arith, λ k. let e : 0 + k ≡ k = omega arith in rw e refl)
      (omega arith, λ k. let e : 0 + k ≡ k = omega arith in rw e refl)
    ∙ ap done (omega arith)
