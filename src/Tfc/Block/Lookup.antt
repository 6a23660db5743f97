-- ===== src/Tfc/Block/Lookup.antt =====
-- tfc/block.rs: the entries of a block by their index, the index of a byte string, and the iterator.
use Prim.Native.Nat.{Ordering}
use mathlib.Core.List.{reverse}
use tdb_succinct_wasm.Base.{
  ℕ, zero, suc, ◌+◌, ◌-◌, Bool, true, false, ◌&&◌, Option, none, some, List, [], ◌∷◌, ◌++◌, length,
  take, ltb, ◌==◌, if◌then◌else◌, Run, done, panic, ◌>>=◌, checked_sub,
}
use tdb_succinct_wasm.Words.{Buffers, byte_at, slice, slice_from}
use tdb_succinct_wasm.Util.{find_common_prefix_ord}
use tdb_succinct_wasm.BitIndex.Build.{sum}
use tdb_succinct_wasm.Tfc.Entry.{SizedDictEntry, rope, new_optimized}
use tdb_succinct_wasm.Tfc.IdLookup.{IdLookupResult, found, closest, not_found}
use tdb_succinct_wasm.Tfc.Block.{block_size, SizedBlockHeader, SizedDictBlock}

-- `num_entries` and `is_incomplete`.
unfoldable pub num_entries : SizedDictBlock → ℕ
num_entries b = b.header.num_entries

unfoldable pub is_incomplete : SizedDictBlock → Bool
is_incomplete b = if b.header.num_entries == block_size then false else true

-- The loop of `entry` down from an index: how much of `last` each earlier suffix still shares.
unfoldable pub shared_down : List ℕ → ℕ → ℕ → Run (List ℕ)
shared_down shareds zero last = done []
shared_down shareds (suc i) last = byte_at shareds i >>= λ shared.
    if shared == 0
    then done []
    else (let last' = if ltb shared last then shared else last in
        shared_down shareds i last' >>= λ v. done (last' ∷ v))

-- The loop of `entry` that cuts the pieces: the pieces, and the offset behind them.
unfoldable pub take_slices : SizedDictBlock → ℕ → List ℕ → ℕ → ℕ → ℕ → Run (List (List ℕ) × ℕ)
take_slices b start [] ix taken offset = done ([], offset)
take_slices b start (shared ∷ v) ix taken offset = checked_sub shared taken >>= λ have_to_take.
    let in_head = ix == 0 && start == 0 in
    (if in_head
      then done offset
      else (checked_sub (start + ix) 1 >>= λ at.
          byte_at b.header.sizes at >>= λ size. done (offset + size)))
    >>= λ next.
        if have_to_take == 0
        then take_slices b start v (ix + 1) taken next
        else ((if in_head
              then slice b.header.head 0 have_to_take
              else slice b.data_bytes offset (offset + have_to_take))
            >>= λ piece.
                take_slices b start v (ix + 1) (taken + have_to_take) next >>= λ (slices, end).
                done (piece ∷ slices, end))

-- The lengths that `entry` collects, from its index down.
unfoldable pub shared_lengths : List ℕ → ℕ → Run (List ℕ)
unfolding shared_down
shared_lengths shareds index = checked_sub index 1 >>= λ before. byte_at shareds before >>= λ last.
    if last == 0 then done [] else (shared_down shareds before last >>= λ v. done (last ∷ v))

-- `entry`. The sums of sizes stay below the length of the data, which `parse` has added up.
unfoldable pub entry : ℕ → SizedDictBlock → ℕ → Run SizedDictEntry
unfolding take_slices shared_lengths new_optimized sum
entry size_of b zero = done (rope (b.header.head ∷ []))
entry size_of b (suc before) = do
  v ← shared_lengths b.header.shareds (suc before)
  start ← checked_sub (suc before) (length v)
  (slices, offset) ← take_slices b start (reverse v) 0 0 (sum (take (start - 1) b.header.sizes))
  suffix_size ← byte_at b.header.sizes before
  suffix ← slice b.data_bytes offset (offset + suffix_size)
  done (new_optimized size_of (slices ++ (suffix ∷ [])))

-- The loop of `id` over the shared lengths and sizes from an index on; the suffixes are cut from the
-- data at the offset, as `suffixes` cuts them.
unfoldable pub id_loop : List ℕ → List ℕ → ℕ → List ℕ → List ℕ → ℕ → ℕ → ℕ → Run IdLookupResult
id_loop data_bytes query num [] sizes ix offset common_prefix =
    checked_sub num 1 >>= λ last. done (closest last)
id_loop data_bytes query num (shared ∷ shareds) [] ix offset common_prefix =
    checked_sub num 1 >>= λ last. done (closest last)
id_loop data_bytes query num (shared ∷ shareds) (size ∷ sizes) ix offset common_prefix =
    slice data_bytes offset (offset + size) >>= λ suffix.
    let next = λ (c : ℕ). id_loop data_bytes query num shareds sizes (ix + 1) (offset + size) c in
    if ltb shared common_prefix
    then done (closest ix)
    else if ltb common_prefix shared
    then next common_prefix
    else (slice_from query common_prefix >>= λ behind.
        find_common_prefix_ord behind suffix >>= λ (more, ordering). elim ordering [
          | Ordering.eq ↦ done (found (ix + 1))
          | Ordering.lt ↦ done (closest ix)
          | Ordering.gt ↦ next (common_prefix + more)
        ])

-- `SizedDictBlock::id`.
unfoldable pub id : SizedDictBlock → List ℕ → Run IdLookupResult
unfolding id_loop
id b query = do
  (common_prefix, ordering) ← find_common_prefix_ord query b.header.head
  elim ordering [
    | Ordering.eq ↦ done (found 0)
    | Ordering.lt ↦ done not_found
    | Ordering.gt ↦
        id_loop b.data_bytes query b.header.num_entries b.header.shareds b.header.sizes 0 0
          common_prefix
  ]

-- `SizedBlockIterator`.
pub record SizedBlockIterator : Type 0 where
  pub header : SizedBlockHeader
  pub data_bytes : List ℕ
  pub ix : ℕ
  pub last : Option (List (List ℕ))

unfoldable pub iter : SizedDictBlock → SizedBlockIterator
iter b = record { header = b.header; data_bytes = b.data_bytes; ix = 0; last = none }

-- The loop of `next` that keeps the first `shared` bytes of the pieces.
unfoldable pub truncate_rope : ℕ → List (List ℕ) → List (List ℕ)
truncate_rope shared [] = []
truncate_rope shared (x ∷ xs) =
    let rest = truncate_rope (shared - length x) xs in
    if ltb (length x) shared then x ∷ rest else take shared x ∷ []

module _ (io : Buffers) (size_of : ℕ) where
  -- The iterator's `next`.
  unfoldable pub next : SizedBlockIterator → Run (Option (SizedDictEntry × SizedBlockIterator))
  unfolding truncate_rope new_optimized
  next it = elim it.last [
    | none ↦
        let last = it.header.head ∷ [] in
        done (
          some (
            new_optimized size_of last,
            record { header = it.header; data_bytes = it.data_bytes; ix = it.ix; last = some last },
          ))
    | some last ↦ checked_sub it.header.num_entries 1 >>= λ entries.
        if ltb it.ix entries
        then (byte_at it.header.sizes it.ix >>= λ size.
            byte_at it.header.shareds it.ix >>= λ shared.
            io.split_to it.data_bytes size >>= λ (suffix, rest).
            let last' = truncate_rope shared last ++ (suffix ∷ []) in
            done (
              some (
                new_optimized size_of last',
                record { header = it.header; data_bytes = rest; ix = it.ix + 1; last = some last' },
              )))
        else done none
  ]

  -- What the iterator hands out until its `none`. A fuel above the number of entries left is
  -- enough, and `panic` at no fuel stands for an iterator that goes on.
  unfoldable pub collect : ℕ → SizedBlockIterator → Run (List SizedDictEntry)
  unfolding next
  collect zero it = panic
  collect (suc n) it = next it >>= λ r. elim r [
    | none ↦ done []
    | some (e, it') ↦ collect n it' >>= λ entries. done (e ∷ entries)
  ]
