-- ===== src/Tests/Pairs.antt =====
-- Runs of the builder of adjacency lists.
use tdb_succinct_wasm.Base.{
  ◌<◌, Bool, true, false, length, get_or, ok, refl, ℕ, ◌≡◌, List, [], ◌∷◌, ◌++◌, done, arith,
}
use tdb_succinct_wasm.AdjacencyList.Builder.{UnindexedBuilder, new, push_all, finalize}
use tdb_succinct_wasm.AdjacencyList.Builder.Push.{
  IsBuilding, IsAscending, marks, bits_of, nums_of, new-IsBuilding, push_all-IsBuilding,
}
use tdb_succinct_wasm.LogArray.Builder as NumBuilder
use tdb_succinct_wasm.AdjacencyList.Builder.RoundTrip.{finalize-IsBuilding}
use tdb_succinct_wasm.BitArray as Bit
use tdb_succinct_wasm.BitArray.{BitArray}
use tdb_succinct_wasm.LogArray as Log
use tdb_succinct_wasm.LogArray.{LogArray}
use tdb_succinct_wasm.Tests.Crates.{crates}

abbrev pub pairs : List (ℕ × ℕ)
pairs = (1, 4) ∷ (1, 6) ∷ (4, 2) ∷ []

pairs-IsAscending : IsAscending (new 5).nums.width (new 5).last_left (new 5).last_right pairs
unfolding IsAscending new NumBuilder.new
pairs-IsAscending = (
  omega arith,
  omega arith,
  λ e. omega arith,
  omega arith,
  (
    omega arith,
    omega arith,
    λ e. omega arith,
    omega arith,
    (omega arith, omega arith, λ e. absurd (omega arith), omega arith, tt),
  ),
)

push_all-IsBuilding_example :
    (b' : UnindexedBuilder) × (push_all crates (new 5) pairs ≡ done b')
    × IsBuilding b' ([] ++ bits_of (new 5).last_left pairs) ([] ++ nums_of (new 5).last_left pairs)
    × (b'.nums.width ≡ (new 5).nums.width)
push_all-IsBuilding_example =
    push_all-IsBuilding crates pairs (new 5) (new-IsBuilding 5 (omega arith) (omega arith))
      pairs-IsAscending

-- The builder after the pairs, with what it took.
pairs_built :
    (b' : UnindexedBuilder) × (push_all crates (new 5) pairs ≡ done b')
    × IsBuilding b' ([] ++ bits_of (new 5).last_left pairs) ([] ++ nums_of (new 5).last_left pairs)
    × (b'.nums.width ≡ (new 5).nums.width)
pairs_built =
    push_all-IsBuilding crates pairs (new 5) (new-IsBuilding 5 (omega arith) (omega arith))
      pairs-IsAscending

abbrev pair_bits : List Bool
pair_bits = false ∷ true ∷ true ∷ true ∷ []

abbrev pair_nums : List ℕ
pair_nums = 4 ∷ 6 ∷ 0 ∷ 0 ∷ 2 ∷ []

pair_bits_lem : [] ++ bits_of (new 5).last_left pairs ≡ pair_bits
unfolding new bits_of marks
pair_bits_lem = refl

pair_nums_lem : [] ++ nums_of (new 5).last_left pairs ≡ pair_nums
unfolding new nums_of
pair_nums_lem = refl

pairs_built-IsBuilding : IsBuilding (pairs_built.0) pair_bits pair_nums
pairs_built-IsBuilding = rw (pair_bits_lem, pair_nums_lem) at (pairs_built.2)

finalize-IsBuilding_example :
    (bits nums : List ℕ) × (a : BitArray) × (la : LogArray) × (finalize crates (pairs_built.0)
      ≡ done (bits, nums))
    × (Bit.from_bits crates bits ≡ done (ok a))
    × (Bit.iter a ≡ done (pair_bits ++ (true ∷ [])))
    × (Log.parse crates nums ≡ done (ok la))
    × (la.len ≡ length pair_nums)
    × ((i : ℕ) → i < length pair_nums → Log.entry crates la i ≡ done (get_or pair_nums i 0))
finalize-IsBuilding_example =
    finalize-IsBuilding crates pairs_built-IsBuilding (omega arith) (omega arith) (omega arith)
