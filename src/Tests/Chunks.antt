-- ===== src/Tests/Chunks.antt =====
-- Groups for the runs: what the iterator adapter `chunks` of the crate itertools does, on lists.
use tdb_succinct_wasm.Base.{
  ℕ, zero, suc, ◌≤◌, ◌<◌, refl, sym, List, [], ◌∷◌, length, length-take, length-drop, take, drop,
  take_append_drop, arith,
}
use tdb_succinct_wasm.BitIndex.Build.Indexed.{IsChunked}

chunks_loop : ℕ → ℕ → List ℕ → List (List ℕ)
chunks_loop zero n xs = []
chunks_loop (suc fuel) n [] = []
chunks_loop (suc fuel) n (x ∷ xs) = take n (x ∷ xs) ∷ chunks_loop fuel n (drop n (x ∷ xs))

unfoldable pub groups_of : ℕ → List ℕ → List (List ℕ)
unfolding chunks_loop
groups_of n xs = chunks_loop (length xs) n xs

chunks_loop-IsChunked :
    (fuel n : ℕ) (xs : List ℕ) → 0 < n → length xs ≤ fuel → IsChunked n xs (chunks_loop fuel n xs)
unfolding chunks_loop IsChunked
chunks_loop-IsChunked zero n [] pos h = refl
chunks_loop-IsChunked zero n (x ∷ xs) pos h = absurd (omega arith)
chunks_loop-IsChunked (suc fuel) n [] pos h = refl
chunks_loop-IsChunked (suc fuel) n (x ∷ xs) pos h =
    let took = length-take n (x ∷ xs) in
    let left = length-drop n (x ∷ xs) in
    (
      drop n (x ∷ xs),
      sym (take_append_drop n (x ∷ xs)),
      omega (arith, took, pos),
      omega (arith, took),
      λ more. omega (arith, took, left, more),
      chunks_loop-IsChunked fuel n (drop n (x ∷ xs)) pos (omega (arith, left, pos, h)),
    )

pub groups_of-IsChunked : (n : ℕ) (xs : List ℕ) → 0 < n → IsChunked n xs (groups_of n xs)
unfolding groups_of
groups_of-IsChunked n xs pos = chunks_loop-IsChunked (length xs) n xs pos (omega arith)
