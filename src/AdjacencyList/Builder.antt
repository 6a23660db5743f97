-- ===== src/AdjacencyList/Builder.antt =====
-- adjacencylist.rs: `UnindexedAdjacencyListBufBuilder` and `AdjacencyListBufBuilder`.
pub mod Push
pub mod RoundTrip
use tdb_succinct_wasm.Base.{
  ℕ, ◌-◌, true, false, ◌&&◌, ◌||◌, List, [], ◌∷◌, ltb, leb, ◌==◌, replicate, if◌then◌else◌, Run,
  done, panic, ◌>>=◌,
}
use tdb_succinct_wasm.Words.{Buffers}
use tdb_succinct_wasm.LogArray.Builder as NumBuilder
use tdb_succinct_wasm.BitArray.Builder as BitBuilder
use tdb_succinct_wasm.BitIndex.Build.{build_bitindex_from_buf}

pub record UnindexedBuilder : Type 0 where
  pub bitarray : BitBuilder.Builder
  pub nums : NumBuilder.Builder
  pub last_left : ℕ
  pub last_right : ℕ

unfoldable pub new : ℕ → UnindexedBuilder
new width = record {
  bitarray = BitBuilder.new [];
  nums = NumBuilder.new [] width;
  last_left = 0;
  last_right = 0;
}

-- The ones that close the left-hand sides up to `left`: one less at the very start.
abbrev pub bitskip : UnindexedBuilder → ℕ → ℕ
bitskip b skip = if b.last_left == 0 then skip - 1 else skip

pub record AdjacencyListBuffers : Type 0 where
  pub nums : List ℕ
  pub bits : List ℕ
  pub bitindex_blocks : List ℕ
  pub bitindex_sblocks : List ℕ

module _ (io : Buffers) where
  -- What `push` writes ahead of the right-hand side.
  pub push_skip : UnindexedBuilder → ℕ → Run UnindexedBuilder
  push_skip b skip =
      if b.last_left == 0 && skip == 1
      then done b
      else if skip == 0
      then done (record b { bitarray = BitBuilder.push io b.bitarray false })
      else (NumBuilder.push_vec io b.nums (replicate (skip - 1) 0) >>= λ nums. done (record b {
        bitarray = BitBuilder.push_all io b.bitarray (replicate (bitskip b skip) true);
        nums = nums;
      }))

  pub push : UnindexedBuilder → ℕ → ℕ → Run UnindexedBuilder
  unfolding push_skip
  push b left right =
      if ltb left b.last_left || (left == b.last_left && leb right b.last_right)
      then panic
      else (push_skip b (left - b.last_left) >>= λ skipped.
          NumBuilder.push io skipped.nums right >>= λ nums. done (record {
            bitarray = skipped.bitarray;
            nums = nums;
            last_left = left;
            last_right = right;
          }))

  pub push_all : UnindexedBuilder → List (ℕ × ℕ) → Run UnindexedBuilder
  unfolding push
  push_all b [] = done b
  push_all b ((left, right) ∷ pairs) = push b left right >>= λ b'. push_all b' pairs

  -- The last bit, and both buffers.
  unfoldable pub finalize : UnindexedBuilder → Run (List ℕ × List ℕ)
  finalize b =
      let bits = if b.nums.count == 0 then b.bitarray else BitBuilder.push io b.bitarray true in
      NumBuilder.finalize io b.nums >>= λ nums. done (BitBuilder.finalize io bits, nums)

  -- `AdjacencyListBufBuilder.finalize`, whose other operations are those of the builder inside. The
  -- first argument groups the blocks, as in the construction of an index.
  unfoldable pub finalize_indexed :
      (ℕ → List ℕ → List (List ℕ)) → UnindexedBuilder → Run AdjacencyListBuffers
  unfolding finalize
  finalize_indexed chunks b = finalize b >>= λ (bitfile, nums).
      build_bitindex_from_buf io chunks bitfile [] [] >>= λ (blocks, sblocks).
      done (record {
        nums = nums;
        bits = bitfile;
        bitindex_blocks = blocks;
        bitindex_sblocks = sblocks;
      })
