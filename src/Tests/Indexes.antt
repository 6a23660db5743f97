-- ===== src/Tests/Indexes.antt =====
-- Runs of the construction of a bit index, and of an adjacency list from its pairs to its buffers.
use tdb_succinct_wasm.Base.{
  ℕ, ◌+◌, ◌^◌, ◌<◌, ◌≡◌, Bool, true, false, List, [], ◌∷◌, ◌++◌, length, done, ◌>>=◌, arith,
}
use tdb_succinct_wasm.Words.{to_be_bytes}
use tdb_succinct_wasm.Words.Stream.{be_words}
use tdb_succinct_wasm.BitArray.{iter_blocks}
use tdb_succinct_wasm.BitArray.Blocks.{iter_blocks-be_words}
use tdb_succinct_wasm.BitArray.Builder.Push.{new-Encodes, push_all-Encodes}
use tdb_succinct_wasm.BitArray.Builder.RoundTrip.{Data, finalize-Encodes}
use tdb_succinct_wasm.BitIndex.Build.{build_bitindex_from_buf}
use tdb_succinct_wasm.BitIndex.Build.Indexed.Opened.{IsBuilt, build-IsBuilt}
use tdb_succinct_wasm.AdjacencyList.{AdjacencyList, parse, right_count, collect, iter}
use tdb_succinct_wasm.AdjacencyList.Builder as ListBuilder
use tdb_succinct_wasm.AdjacencyList.Builder.{AdjacencyListBuffers, finalize_indexed}
use tdb_succinct_wasm.AdjacencyList.Builder.Push.{IsAscending, nums_of}
use tdb_succinct_wasm.AdjacencyList.RoundTrip.{collect-finalize_indexed}
use tdb_succinct_wasm.Tests.Crates.{crates}
use tdb_succinct_wasm.Tests.Chunks.{groups_of, groups_of-IsChunked}
use tdb_succinct_wasm.Tests.Pairs.{pairs}

iter_blocks-be_words_example :
    iter_blocks crates (be_words (0xa000_0000_0000_0000 ∷ 5 ∷ []) ++ to_be_bytes 8 70)
    ≡ done (0xa000_0000_0000_0000 ∷ 5 ∷ [])
iter_blocks-be_words_example =
    iter_blocks-be_words crates (0xa000_0000_0000_0000 ∷ 5 ∷ []) 70 (omega arith, (omega arith, tt))
      (omega arith)

abbrev signs : List Bool
signs = true ∷ false ∷ true ∷ []

signs-Data : (bytes : List ℕ) × Data bytes signs
signs-Data =
    let pushed = push_all-Encodes crates signs (new-Encodes []) in
    let (bytes, _, d) = finalize-Encodes crates pushed (omega arith) in (bytes, d)

build-IsBuilt_example :
    (blocks sblocks : List ℕ) × (build_bitindex_from_buf crates groups_of
        (signs-Data.0 ++ to_be_bytes 8 (length signs))
        []
        []
      ≡ done (blocks, sblocks))
    × IsBuilt crates (signs-Data.0 ++ to_be_bytes 8 (length signs)) blocks sblocks signs
build-IsBuilt_example =
    build-IsBuilt crates groups_of groups_of-IsChunked (signs-Data.1) (omega arith)

ascent : IsAscending 5 0 0 pairs
unfolding IsAscending
ascent = (
  omega arith,
  omega arith,
  λ e. omega arith,
  omega arith,
  (
    omega arith,
    omega arith,
    λ e. omega arith,
    omega arith,
    (omega arith, omega arith, λ e. absurd (omega arith), omega arith, tt),
  ),
)

few_numbers : length (nums_of 0 pairs) < 2 ^ 56
unfolding nums_of
few_numbers = omega arith

collect-finalize_indexed_example :
    (buffers : AdjacencyListBuffers) × (al : AdjacencyList) × ((ListBuilder.push_all crates
          (ListBuilder.new 5)
          pairs
        >>= finalize_indexed crates groups_of)
      ≡ done buffers)
    × (parse crates buffers.nums buffers.bits buffers.bitindex_blocks buffers.bitindex_sblocks
        ≡ done al)
    × (collect crates (right_count al + 1) (iter al) ≡ done pairs)
collect-finalize_indexed_example =
    collect-finalize_indexed crates groups_of groups_of-IsChunked 5 pairs (omega arith)
      (omega arith) (omega arith) ascent (omega arith, (omega arith, (omega arith, tt))) few_numbers
