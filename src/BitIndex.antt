-- ===== src/BitIndex.antt =====
-- bitindex.rs: a bit array with an index of ranks, and the rank queries on it. A subtraction below
-- zero, which a debug build refuses, is `panic`.
pub mod Select
pub mod Build
pub mod Rank
pub mod Ranges
use tdb_succinct_wasm.Base.{
  ℕ, zero, suc, ◌+◌, ◌-◌, ◌*◌, ◌/◌, ◌%◌, ◌^◌, Bool, true, false, List, length, take, drop, ltb,
  ◌==◌, if◌then◌else◌, Run, done, panic, ◌>>=◌, ◌>>◌, assert, checked_sub, Result, ok, err,
}
use tdb_succinct_wasm.Bits.Shift.{◌>>>◌}
use tdb_succinct_wasm.Bits.Count.{count_ones}
use tdb_succinct_wasm.Words.{Buffers, slice}
use tdb_succinct_wasm.LogArray
use tdb_succinct_wasm.LogArray.{LogArray}
use tdb_succinct_wasm.BitArray
use tdb_succinct_wasm.BitArray.{BitArray}

-- `SBLOCK_SIZE`.
abbrev pub sblock_size : ℕ
sblock_size = 52

unfoldable pub use_linear_bitscan : ℕ → ℕ → Bool
use_linear_bitscan start end = start / (8 * 64) == end / (8 * 64)

pub record BitIndex : Type 0 where
  pub array : BitArray
  pub blocks : LogArray
  pub sblocks : LogArray

pub from_parts : BitArray → LogArray → LogArray → Run BitIndex
from_parts array blocks sblocks = do
  assert (sblocks.len == (blocks.len + sblock_size - 1) / sblock_size)
  assert (blocks.len == (array.len + 63) / 64)
  done (record { array = array; blocks = blocks; sblocks = sblocks })

-- `unwrap` on a `Result`.
abbrev pub unwrap {ℓ} : {E : Type 0} {A : Type ℓ} → Result E A → Run A
unwrap (ok a) = done a
unwrap (err e) = panic

unfoldable pub len : BitIndex → ℕ
len bi = bi.array.len

unfoldable pub get : BitIndex → ℕ → Run Bool
get bi index = BitArray.get bi.array index

-- The bytes of a block.
pub block_bits : BitIndex → ℕ → Run (List ℕ)
block_bits bi block_index =
    let bit_index = block_index * 8 in slice bi.array.buf bit_index (bit_index + 8)

module _ (io : Buffers) where
  unfoldable pub from_maps : List ℕ → List ℕ → List ℕ → Run BitIndex
  unfolding from_parts
  from_maps bitarray_map blocks_map sblocks_map = do
    bits ← BitArray.from_bits io bitarray_map
    bitarray ← unwrap bits
    parsed ← LogArray.parse io blocks_map
    blocks ← unwrap parsed
    parsed' ← LogArray.parse io sblocks_map
    sblocks ← unwrap parsed'
    from_parts bitarray blocks sblocks

  -- The 1-bits up to and with the index.
  pub rank1 : BitIndex → ℕ → Run ℕ
  unfolding block_bits
  rank1 bi index = do
    let block_index = index / 64
    let sblock_index = block_index / sblock_size
    block_rank ← LogArray.entry io bi.blocks block_index
    sblock_rank ← LogArray.entry io bi.sblocks sblock_index
    bits ← block_bits bi block_index
    assert (length bits == 8)
    word ← io.read_u64 bits
    let bits_rank = count_ones (word >>> (63 - index % 64))
    before ← checked_sub sblock_rank block_rank
    done (before + bits_rank)

  -- The 1-bits of a range, its end excluded.
  pub rank1_from_range : BitIndex → ℕ → ℕ → Run ℕ
  rank1_from_range bi start end = if start == end then done 0 else do
    last ← checked_sub end 1
    rank ← rank1 bi last
    if start == 0 then done rank else (rank1 bi (start - 1) >>= λ before. checked_sub rank before)

  -- The 0-bits up to and with the index.
  pub rank0 : BitIndex → ℕ → Run ℕ
  rank0 bi index = do r0 ← rank1 bi index; checked_sub (1 + index) r0

  pub rank0_from_range : BitIndex → ℕ → ℕ → Run ℕ
  rank0_from_range bi start end = if start == end then done 0 else do
    last ← checked_sub end 1
    rank ← rank0 bi last
    if start == 0 then done rank else (rank0 bi (start - 1) >>= λ before. checked_sub rank before)
