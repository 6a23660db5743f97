-- ===== src/AdjacencyList/RoundTrip.antt =====
-- From a list of pairs to the buffers of an adjacency list and back.
use tdb_succinct_wasm.Base.{
  ℕ, ◌+◌, ◌^◌, ◌≤◌, ◌<◌, ◌≡◌, refl, ap, ◌∙◌, Bool, true, false, List, [], ◌∷◌, ◌++◌, length,
  length-append, ◌==◌, done, ◌>>=◌, arith,
}
use tdb_succinct_wasm.Words.{Buffers, to_be_bytes}
use tdb_succinct_wasm.LogArray.Builder as NumBuilder
use tdb_succinct_wasm.LogArray.Finished.{finished}
use tdb_succinct_wasm.BitArray.Builder.Push as BitPush
use tdb_succinct_wasm.BitArray.Builder.RoundTrip.{finalize-Encodes}
use tdb_succinct_wasm.BitIndex
use tdb_succinct_wasm.BitIndex.Build.Indexed.{IsChunked}
use tdb_succinct_wasm.BitIndex.Build.Indexed.Opened.{build-IsBuilt}
use tdb_succinct_wasm.AdjacencyList.{AdjacencyList, from_parts, parse, right_count, collect, iter}
use tdb_succinct_wasm.AdjacencyList.Builder.{
  UnindexedBuilder, AdjacencyListBuffers, new, push_all, finalize, finalize_indexed,
}
use tdb_succinct_wasm.AdjacencyList.Builder.Push.{
  IsBuilding, IsAscending, bits_of, nums_of, new-IsBuilding, push_all-IsBuilding,
}
use tdb_succinct_wasm.AdjacencyList.Pairs.{Holds, collect-pair_at_pos}
use tdb_succinct_wasm.AdjacencyList.Walk.{IsPositive, length-nums_of_first, pairs_from-pairs}

module _ (io : Buffers) (chunks : ℕ → List ℕ → List (List ℕ))
    (chunks_lem : (n : ℕ) (xs : List ℕ) → 0 < n → IsChunked n xs (chunks n xs)) where
  -- The four buffers of a builder open as a list that holds the bits, a last 1, and the numbers.
  pub finalize_indexed-Holds :
      {b : UnindexedBuilder} {bs : List Bool} {vs : List ℕ}
      → IsBuilding b bs vs
      → length vs ≡ length (bs ++ (true ∷ []))
      → length vs < 2 ^ 56
      → (buffers : AdjacencyListBuffers) × (al : AdjacencyList) × (finalize_indexed io chunks b
          ≡ done buffers)
        × (parse io buffers.nums buffers.bits buffers.bitindex_blocks buffers.bitindex_sblocks
            ≡ done al)
        × Holds al (bs ++ (true ∷ [])) vs
  unfolding finalize_indexed finalize parse from_parts
  finalize_indexed-Holds {b} {bs} {vs} h same short =
      let all = bs ++ (true ∷ []) in
      let size = length-append bs (true ∷ []) in
      let filled : (b.nums.count == 0) ≡ false = ground (arith, h.nums.count, same, size) in
      let (bytes, written, d) =
        finalize-Encodes io (BitPush.push-Encodes io h.bits true) (omega (arith, same)) in
      let nums = finished io h.nums short in
      let (blocks, sblocks, run, built) =
        build-IsBuilt io chunks chunks_lem d (omega (arith, same)) in
      let index_len : BitIndex.len built.index ≡ length all =
        unfold BitIndex.len in built.indexed.array.len in
      let sizes : (nums.array.len == BitIndex.len built.index) ≡ true =
        ground (arith, nums.len, same, index_len) in
      (
        record {
          nums = nums.bytes;
          bits = bytes ++ to_be_bytes 8 (length all);
          bitindex_blocks = blocks;
          bitindex_sblocks = sblocks;
        },
        record { nums = nums.array; bits = built.index },
        rw (nums.run, filled, written, run) refl,
        rw
            (
              nums.parsed, built.array_lem, built.blocks_lem, built.sblocks_lem, built.parts_lem,
              sizes,
            )
            refl,
        record { bits = built.indexed; ws = nums.words; nums = nums.represents; same = same },
      )

  -- A list of one or more pairs that go up, with left-hand sides of 1 or more, right-hand sides of 1
  -- or more that fit a width of 1 to 64 bits, and fewer than 2 ^ 56 numbers in all, is built without
  -- a panic; the four buffers are accepted, and the iterator hands out exactly the list. The groups of the
  -- crate itertools are a parameter.
  pub collect-finalize_indexed :
      (w : ℕ) (pairs : List (ℕ × ℕ))
      → 0 < w
      → w ≤ 64
      → 0 < length pairs
      → IsAscending w 0 0 pairs
      → IsPositive pairs
      → length (nums_of 0 pairs) < 2 ^ 56
      → (buffers : AdjacencyListBuffers) × (al : AdjacencyList) × ((push_all io (new w) pairs
            >>= finalize_indexed io chunks)
          ≡ done buffers)
        × (parse io buffers.nums buffers.bits buffers.bitindex_blocks buffers.bitindex_sblocks
            ≡ done al)
        × (collect io (right_count al + 1) (iter al) ≡ done pairs)
  unfolding right_count new NumBuilder.new
  collect-finalize_indexed w pairs lo hi some_pairs up positive short =
      let (b, run, building, width) =
        push_all-IsBuilding io pairs (new w) (new-IsBuilding w lo hi) up in
      let same = length-nums_of_first pairs w up some_pairs in
      let (buffers, al, run', opened, holds) = finalize_indexed-Holds building same short in
      let count : BitIndex.len al.bits ≡ length (bits_of 0 pairs ++ (true ∷ [])) =
        unfold BitIndex.len in holds.bits.array.len in
      (
        buffers,
        al,
        rw run run',
        opened,
        rw count (
            (collect-pair_at_pos io holds).0
            ∙ ap done (pairs_from-pairs pairs w up positive some_pairs)),
      )
