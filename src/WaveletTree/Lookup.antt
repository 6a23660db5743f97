-- ===== src/WaveletTree/Lookup.antt =====
-- wavelettree.rs: `WaveletLookup`, the positions of one entry.
use tdb_succinct_wasm.Base.{
  ℕ, zero, suc, ◌+◌, Bool, Option, none, some, List, [], ◌∷◌, leb, if◌then◌else◌, Run, done, panic,
  ◌>>=◌, checked_sub,
}
use tdb_succinct_wasm.Words.{Buffers}
use tdb_succinct_wasm.BitIndex.{BitIndex, rank0_from_range, rank1_from_range}
use tdb_succinct_wasm.BitIndex.Select.{select0_from_range, select1_from_range}
use tdb_succinct_wasm.WaveletTree.{WaveletTree, WaveletLookup, lookup}

-- `slices.last().unwrap()`.
pub last_slice : List (Bool × ℕ × ℕ) → Run (Bool × ℕ × ℕ)
last_slice [] = panic
last_slice (slice ∷ []) = done slice
last_slice (slice ∷ next ∷ slices) = last_slice (next ∷ slices)

module _ (io : Buffers) where
  pub len : WaveletLookup → Run ℕ
  unfolding last_slice
  len l = do
    (b, start, end) ← last_slice l.slices
    if b
        then rank1_from_range io l.tree.bits start end
        else rank0_from_range io l.tree.bits start end

  -- The position in a layer of the result in the next one.
  pub select_in_slice : BitIndex → Bool × ℕ × ℕ → ℕ → Run ℕ
  select_in_slice bits (b, start_index, end_index) result = do
    found ←
        (if b
          then select1_from_range io bits result start_index end_index
          else select0_from_range io bits result start_index end_index)
    place ← elim found [ none ↦ panic | some i ↦ done i ]
    before ← checked_sub place start_index
    done (before + 1)

  -- The loop of `entry`, from the last slice to the first.
  pub walk : BitIndex → List (Bool × ℕ × ℕ) → ℕ → Run ℕ
  unfolding select_in_slice
  walk bits [] result = done result
  walk bits (slice ∷ slices) result =
      walk bits slices result >>= λ below. select_in_slice bits slice below

  pub entry : WaveletLookup → ℕ → Run ℕ
  unfolding walk len
  entry l index = do
    count ← len l
    if leb count index
        then panic
        else do result ← walk l.tree.bits l.slices (index + 1); checked_sub result 1

  -- `iter`, `n` positions from `i` on.
  pub entries_from : ℕ → WaveletLookup → ℕ → Run (List ℕ)
  unfolding entry
  entries_from zero l i = done []
  entries_from (suc n) l i =
      entry l i >>= λ place. entries_from n l (i + 1) >>= λ places. done (place ∷ places)

  pub iter : WaveletLookup → Run (List ℕ)
  unfolding entries_from
  iter l = len l >>= λ count. entries_from count l 0

  -- `WaveletTree::lookup_one`.
  unfoldable pub lookup_one : WaveletTree → ℕ → Run (Option ℕ)
  unfolding entry
  lookup_one tree num = lookup io tree num >>= λ found. elim found [
    | none ↦ done none
    | some l ↦ (entry l 0 >>= λ place. done (some place))
  ]
