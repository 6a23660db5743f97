-- ===== src/BitIndex/Build.antt =====
-- bitindex.rs: building the index.
pub mod Blocks
pub mod Indexed
use tdb_succinct_wasm.Base.{ℕ, ◌+◌, ◌-◌, ◌*◌, List, [], ◌∷◌, map, Run, done, ◌>>=◌, checked_sub}
use tdb_succinct_wasm.Bits.Count.{count_ones, leading_zeros}
use tdb_succinct_wasm.Words.{Buffers}
use tdb_succinct_wasm.LogArray.Builder
use tdb_succinct_wasm.BitArray.{iter_blocks}
use tdb_succinct_wasm.BitIndex.{sblock_size}

-- `iter().sum()`.
unfoldable pub sum : List ℕ → ℕ
sum [] = 0
sum (x ∷ xs) = x + sum xs

module _ (io : Buffers) where
  -- One superblock: each block stores what the superblock has from the block on.
  pub push_block_ranks : Builder.Builder → ℕ → List ℕ → Run Builder.Builder
  push_block_ranks blocks sblock_subrank [] = done blocks
  push_block_ranks blocks sblock_subrank (block_rank ∷ block_ranks) =
      Builder.push io blocks sblock_subrank >>= λ blocks'.
      checked_sub sblock_subrank block_rank >>= λ rest. push_block_ranks blocks' rest block_ranks

  pub push_chunks :
      Builder.Builder
      → Builder.Builder
      → ℕ
      → List (List ℕ)
      → Run (Builder.Builder × Builder.Builder)
  unfolding push_block_ranks
  push_chunks blocks sblocks sblock_rank [] = done (blocks, sblocks)
  push_chunks blocks sblocks sblock_rank (chunk ∷ chunks) =
      let block_ranks = map count_ones chunk in
      let sblock_subrank = sum block_ranks in
      push_block_ranks blocks sblock_subrank block_ranks >>= λ blocks'.
      Builder.push io sblocks (sblock_rank + sblock_subrank) >>= λ sblocks'.
      push_chunks blocks' sblocks' (sblock_rank + sblock_subrank) chunks

  -- `build_bitindex_from_block_iter`, from the blocks as the crate `itertools` groups them.
  pub build_bitindex_from_block_iter :
      (ℕ → List ℕ → List (List ℕ)) → List ℕ → List ℕ → List ℕ → Run (List ℕ × List ℕ)
  unfolding push_chunks
  build_bitindex_from_block_iter chunks blocks_iter blocks sblocks =
      push_chunks (Builder.new blocks (64 - leading_zeros (sblock_size * 64)))
        (Builder.new sblocks 64) 0 (chunks sblock_size blocks_iter)
      >>= λ (b, s). Builder.finalize io b >>= λ blocks'.
          Builder.finalize io s >>= λ sblocks'. done (blocks', sblocks')

  unfoldable pub build_bitindex_from_buf :
      (ℕ → List ℕ → List (List ℕ)) → List ℕ → List ℕ → List ℕ → Run (List ℕ × List ℕ)
  unfolding build_bitindex_from_block_iter
  build_bitindex_from_buf chunks bitarray blocks sblocks =
      iter_blocks io bitarray >>= λ blocks_iter.
      build_bitindex_from_block_iter chunks blocks_iter blocks sblocks
