-- ===== src/Tfc/Dict.antt =====
-- tfc/dict.rs: a dictionary of front-coded blocks, and its builder.
pub mod Blocks
pub mod EntryOf
pub mod Cutting
pub mod Adding
pub mod RoundTrip
pub mod Iterate
pub mod Rounds
pub mod Search
pub mod Answers
use Prim.Native.Nat.{Ordering}
use tdb_succinct_wasm.Base.{
  ℕ, zero, suc, ◌+◌, ◌-◌, ◌*◌, ◌/◌, ◌%◌, ◌^◌, ◌≡◌, Bool, true, false, Option, none, some, List, [],
  ◌∷◌, ◌++◌, length, ltb, leb, ◌==◌, if◌then◌else◌, Run, done, panic, ◌>>=◌, ◌>>◌, assert,
  checked_sub, Result, ok, err, ◌⊎◌, inl, inr,
}
use tdb_succinct_wasm.Words.{Buffers, byte_at, slice_from}
use tdb_succinct_wasm.Words.Width.{calculate_width}
use tdb_succinct_wasm.Util.Prefix.{lexicographic}
use tdb_succinct_wasm.LogArray.Builder as NumBuilder
use tdb_succinct_wasm.LogArray.Late as Late
use tdb_succinct_wasm.LogArray.Late.{LateBuilder}
use tdb_succinct_wasm.Monotonic as Monotonic
use tdb_succinct_wasm.Monotonic.{MonotonicLogArray}
use tdb_succinct_wasm.Tfc.Entry.{SizedDictEntry, to_bytes}
use tdb_succinct_wasm.Tfc.IdLookup as IdLookup
use tdb_succinct_wasm.Tfc.IdLookup.{IdLookupResult, found, not_found}
use tdb_succinct_wasm.Tfc.Block as Block
use tdb_succinct_wasm.Tfc.Block.{
  block_size, SizedDictError, SizedDictBlock, build_block_unchecked, parse_block_control_records,
}
use tdb_succinct_wasm.Tfc.Block.Lookup as Lookup

pub record SizedDictBufBuilder : Type 0 where
  pub record_size : Option ℕ
  pub block_offset : ℕ
  pub id_offset : ℕ
  pub offsets : LateBuilder
  pub data_buf : List ℕ
  pub current_block : List (List ℕ)

unfoldable pub new : Option ℕ → ℕ → ℕ → LateBuilder → List ℕ → SizedDictBufBuilder
new record_size block_offset id_offset offsets data_buf = record {
  record_size = record_size;
  block_offset = block_offset;
  id_offset = id_offset;
  offsets = offsets;
  data_buf = data_buf;
  current_block = [];
}

module _ (io : Buffers) where
  -- The block at hand is written, and its end is an offset.
  unfoldable pub flush : SizedDictBufBuilder → Run SizedDictBufBuilder
  flush b =
      build_block_unchecked io b.record_size b.data_buf b.current_block >>= λ (data_buf, size).
      assert (ltb (b.block_offset + size) (2 ^ 64)) >>= λ _. done (record b {
        data_buf = data_buf;
        block_offset = b.block_offset + size;
        offsets = Late.push b.offsets (b.block_offset + size);
      })

  unfoldable pub add : SizedDictBufBuilder → List ℕ → Run (ℕ × SizedDictBufBuilder)
  unfolding flush
  add b value = assert (ltb (b.id_offset + 1) (2 ^ 64)) >>= λ _.
      let b' = record b {
        current_block = b.current_block ++ (value ∷ []);
        id_offset = b.id_offset + 1;
      } in
      if length (b.current_block ++ (value ∷ [])) == block_size
      then (flush b' >>= λ b''. done (b''.id_offset, record b'' { current_block = [] }))
      else done (b'.id_offset, b')

  unfoldable pub add_entry : SizedDictBufBuilder → SizedDictEntry → Run (ℕ × SizedDictBufBuilder)
  unfolding add to_bytes
  add_entry b e = add b (to_bytes e)

  unfoldable pub add_all : SizedDictBufBuilder → List (List ℕ) → Run (List ℕ × SizedDictBufBuilder)
  unfolding add
  add_all b [] = done ([], b)
  add_all b (val ∷ vals) =
      add b val >>= λ (id, b'). add_all b' vals >>= λ (ids, b''). done (id ∷ ids, b'')

  unfoldable pub finalize : SizedDictBufBuilder → Run (LateBuilder × List ℕ × ℕ × ℕ)
  unfolding flush
  finalize b = (if ltb 0 (length b.current_block) then flush b else done b) >>= λ b'.
      done (b'.offsets, b'.data_buf, b'.block_offset, b'.id_offset)

  unfoldable pub build_offset_logarray : List ℕ → List ℕ → Run (List ℕ)
  build_offset_logarray buf offsets =
      let kept = Late.init_of offsets in
      let largest_element : ℕ = (elim (Late.last_of kept) [ none ↦ 0 | some offset ↦ offset ]) in
      NumBuilder.push_vec io (NumBuilder.new buf (calculate_width largest_element)) kept >>= λ b.
      NumBuilder.finalize io b

pub record SizedDict : Type 0 where
  pub offsets : MonotonicLogArray
  pub data_bytes : List ℕ
  pub dict_offset : ℕ

-- `unwrap`.
abbrev pub unwrap {ℓ} : {E : Type 0} {A : Type ℓ} → Run (Result E A) → Run A
unwrap m = m >>= λ r. elim r [ ok a ↦ done a | err e ↦ panic ]

unfoldable pub from_parts : MonotonicLogArray → List ℕ → ℕ → SizedDict
from_parts offsets data_bytes dict_offset = record {
  offsets = offsets;
  data_bytes = data_bytes;
  dict_offset = dict_offset;
}

unfoldable pub is_empty : SizedDict → Bool
is_empty d = length d.data_bytes == 0

unfoldable pub num_blocks : SizedDict → ℕ
unfolding is_empty
num_blocks d = if is_empty d then 0 else d.offsets.logarray.len + 1

module _ (io : Buffers) where
  unfoldable pub parse : List ℕ → List ℕ → ℕ → Run SizedDict
  unfolding from_parts
  parse offsets data_bytes dict_offset = unwrap (Monotonic.parse io offsets) >>= λ array.
      done (from_parts array data_bytes dict_offset)

  unfoldable pub block_offset : SizedDict → ℕ → Run ℕ
  block_offset d zero = done 0
  block_offset d (suc before) =
      Monotonic.entry io d.offsets before >>= λ offset. checked_sub offset d.dict_offset

  unfoldable pub block_bytes : SizedDict → ℕ → Run (List ℕ)
  unfolding is_empty block_offset
  block_bytes d block_index =
      if is_empty d
      then panic
      else (block_offset d block_index >>= λ offset. slice_from d.data_bytes offset)

  unfoldable pub block : SizedDict → ℕ → Run SizedDictBlock
  unfolding block_bytes
  block d block_index =
      block_bytes d block_index >>= λ bytes. unwrap (Block.parse io bytes) >>= λ (b, rest). done b

  unfoldable pub block_head : SizedDict → ℕ → Run (List ℕ)
  unfolding block_bytes
  block_head d block_index =
      block_bytes d block_index >>= λ bytes. unwrap (Block.block_head io bytes)

  unfoldable pub block_num_elements : SizedDict → ℕ → Run ℕ
  unfolding is_empty block_offset
  block_num_elements d block_index =
      if is_empty d
      then done 0
      else (block_offset d block_index >>= λ offset.
          byte_at d.data_bytes offset >>= λ cw. parse_block_control_records cw)

  unfoldable pub num_entries : SizedDict → Run ℕ
  unfolding num_blocks block_num_elements
  num_entries d =
      if num_blocks d == 0
      then done 0
      else (block_num_elements d (num_blocks d - 1) >>= λ last_block_size.
          done ((num_blocks d - 1) * block_size + last_block_size))

  unfoldable pub entry : ℕ → SizedDict → ℕ → Run (Option SizedDictEntry)
  unfolding num_entries block
  entry size_of d index = num_entries d >>= λ entries.
      if ltb entries index
      then done none
      else (checked_sub index 1 >>= λ before.
          block d (before / 8) >>= λ b. Lookup.entry size_of b (before % 8) >>= λ e. done (some e))

  -- The loop of `id` over the heads of the blocks, while `min <= max`: the answer, or the block that
  -- the string should be in. A fuel above the number of blocks is enough, and `panic` at no fuel
  -- stands for a loop that goes on.
  unfoldable pub search_heads : ℕ → SizedDict → List ℕ → ℕ → ℕ → Run (IdLookupResult ⊎ ℕ)
  unfolding block_head
  search_heads zero d query min max = panic
  search_heads (suc fuel) d query min max =
      let mid = (min + max) / 2 in
      let left : Run (IdLookupResult ⊎ ℕ) = done (inr max) in
      let first : Run (IdLookupResult ⊎ ℕ) = done (inl not_found) in
      let here : Run (IdLookupResult ⊎ ℕ) = done (inl (found (mid * block_size + 1))) in
      let down = search_heads fuel d query min (mid - 1) in
      let up = search_heads fuel d query (mid + 1) max in
      let round =
        (block_head d mid >>= λ head_slice. elim (lexicographic query head_slice) [
          | Ordering.lt ↦ if mid == 0 then first else down
          | Ordering.gt ↦ up
          | Ordering.eq ↦ here
        ]) in
      if leb min max then round else left

  unfoldable pub id : SizedDict → List ℕ → Run IdLookupResult
  unfolding is_empty search_heads block IdLookup.offset IdLookup.default
  id d query =
      if is_empty d
      then done not_found
      else (search_heads (d.offsets.logarray.len + 2) d query 0 d.offsets.logarray.len >>= λ r.
          elim r [
            | inl answer ↦ done answer
            | inr max ↦ block d max >>= λ b. Lookup.id b query >>= λ block_id. done (
                IdLookup.default (IdLookup.offset block_id (max * block_size + 1))
                  (max * block_size))
          ])

  -- The blocks that `SizedDictBlockIterator` hands out from an index on, to the end that its test of
  -- the index finds. A fuel above the number of blocks left is enough, and `panic` at no fuel stands
  -- for an iterator that goes on.
  unfoldable pub blocks_from : ℕ → SizedDict → ℕ → Run (List SizedDictBlock)
  unfolding num_blocks block
  blocks_from zero d index = panic
  blocks_from (suc n) d index =
      let rest = blocks_from n d (index + 1) in
      if leb (num_blocks d) index
      then done []
      else (block d index >>= λ b. rest >>= λ blocks. done (b ∷ blocks))

  -- The entries of all blocks, as `iter` hands them out.
  unfoldable pub entries_of_blocks : ℕ → List SizedDictBlock → Run (List SizedDictEntry)
  entries_of_blocks size_of [] = done []
  entries_of_blocks size_of (b ∷ blocks) =
      Lookup.collect io size_of (b.header.num_entries + 1) (Lookup.iter b) >>= λ entries.
      entries_of_blocks size_of blocks >>= λ rest. done (entries ++ rest)

  unfoldable pub iter : ℕ → SizedDict → Run (List SizedDictEntry)
  unfolding blocks_from entries_of_blocks num_blocks
  iter size_of d = blocks_from (num_blocks d + 1) d 0 >>= λ blocks. entries_of_blocks size_of blocks
