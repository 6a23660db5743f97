-- ===== src/Util/Prefix/Order.antt =====
-- The order of byte strings.
use Prim.Native.Nat.{Ordering}
use tdb_succinct_wasm.Base.{◌≡◌, refl, List, [], ◌∷◌, ℕ, arith}
use tdb_succinct_wasm.Util.Prefix.{lexicographic}

pub lexicographic_refl : (xs : List ℕ) → lexicographic xs xs ≡ Ordering.eq
unfolding lexicographic
lexicographic_refl [] = refl
lexicographic_refl (x ∷ xs) = ground (arith, lexicographic_refl xs)

pub lexicographic_swap :
    (xs ys : List ℕ) → lexicographic xs ys ≡ Ordering.lt → lexicographic ys xs ≡ Ordering.gt
unfolding lexicographic
lexicographic_swap [] [] e = absurd cc
lexicographic_swap [] (y ∷ ys) e = refl
lexicographic_swap (x ∷ xs) [] e = absurd cc
lexicographic_swap (x ∷ xs) (y ∷ ys) e = ground (arith, e, lexicographic_swap xs ys)

pub lexicographic_trans :
    (xs ys zs : List ℕ)
    → lexicographic xs ys ≡ Ordering.lt
    → lexicographic ys zs ≡ Ordering.lt
    → lexicographic xs zs ≡ Ordering.lt
unfolding lexicographic
lexicographic_trans [] [] zs e e' = absurd cc
lexicographic_trans [] (y ∷ ys) [] e e' = absurd cc
lexicographic_trans [] (y ∷ ys) (z ∷ zs) e e' = refl
lexicographic_trans (x ∷ xs) [] zs e e' = absurd cc
lexicographic_trans (x ∷ xs) (y ∷ ys) [] e e' = absurd cc
lexicographic_trans (x ∷ xs) (y ∷ ys) (z ∷ zs) e e' =
    ground (arith, e, e', lexicographic_trans xs ys zs)
