-- ===== src/AdjacencyList.antt =====
-- adjacencylist.rs: pairs of numbers, as an array of the right-hand sides and a bit index that marks
-- the last pair of each left-hand side.
pub mod Builder
pub mod Pairs
pub mod Walk
pub mod RoundTrip
use tdb_succinct_wasm.Base.{
  ℕ, zero, suc, ◌+◌, ◌-◌, Bool, true, false, Option, none, some, List, [], ◌∷◌, ltb, leb, ◌==◌,
  if◌then◌else◌, Run, done, panic, ◌>>=◌, ◌>>◌, assert, checked_sub, Result, ok, err,
}
use tdb_succinct_wasm.Words.{Buffers}
use tdb_succinct_wasm.LogArray
use tdb_succinct_wasm.LogArray.{LogArray}
use tdb_succinct_wasm.BitArray
use tdb_succinct_wasm.BitIndex
use tdb_succinct_wasm.BitIndex.{BitIndex, unwrap}
use tdb_succinct_wasm.BitIndex.Select.{select1}

pub record AdjacencyList : Type 0 where
  pub nums : LogArray
  pub bits : BitIndex

-- With the check of a debug build.
pub from_parts : LogArray → BitIndex → Run AdjacencyList
from_parts nums bits =
    assert (nums.len == BitIndex.len bits) >>= λ _. done (record { nums = nums; bits = bits })

unfoldable pub right_count : AdjacencyList → ℕ
right_count al = BitIndex.len al.bits

unfoldable pub bit_at_pos : AdjacencyList → ℕ → Run Bool
bit_at_pos al pos = BitIndex.get al.bits pos

-- `unwrap` on an `Option`.
abbrev pub unwrap_some {ℓ} : {A : Type ℓ} → Option A → Run A
unwrap_some none = panic
unwrap_some (some a) = done a

pub record AdjacencyListIterator : Type 0 where
  pub pos : ℕ
  pub left : ℕ
  pub bits : BitIndex
  pub nums : LogArray

pub iter : AdjacencyList → AdjacencyListIterator
iter al = record { pos = 0; left = 1; bits = al.bits; nums = al.nums }

module _ (io : Buffers) where
  pub parse : List ℕ → List ℕ → List ℕ → List ℕ → Run AdjacencyList
  unfolding from_parts
  parse nums_slice bits_slice bits_block_slice bits_sblock_slice = do
    nums_parsed ← LogArray.parse io nums_slice
    nums ← unwrap nums_parsed
    bits_parsed ← BitArray.from_bits io bits_slice
    bit_array ← unwrap bits_parsed
    blocks_parsed ← LogArray.parse io bits_block_slice
    bits_block_array ← unwrap blocks_parsed
    sblocks_parsed ← LogArray.parse io bits_sblock_slice
    bits_sblock_array ← unwrap sblocks_parsed
    bits ← BitIndex.from_parts bit_array bits_block_array bits_sblock_array
    from_parts nums bits

  pub left_count : AdjacencyList → Run ℕ
  left_count al =
      if BitIndex.len al.bits == 0
      then done 0
      else BitIndex.rank1 io al.bits (BitIndex.len al.bits - 1)

  pub offset_for : AdjacencyList → ℕ → Run ℕ
  offset_for al index = if index == 1 then done 0 else do
    rank ← checked_sub index 1
    found ← select1 io al.bits rank
    place ← unwrap_some found
    done (place + 1)

  pub left_at_pos : AdjacencyList → ℕ → Run ℕ
  left_at_pos al pos =
      if pos == 0 then done 1 else (BitIndex.rank1 io al.bits (pos - 1) >>= λ rank. done (rank + 1))

  unfoldable pub num_at_pos : AdjacencyList → ℕ → Run ℕ
  num_at_pos al pos = LogArray.entry io al.nums pos

  pub pair_at_pos : AdjacencyList → ℕ → Run (ℕ × ℕ)
  pair_at_pos al pos = do
    before ← (if pos == 0 then done 0 else BitIndex.rank1 io al.bits (pos - 1))
    right ← LogArray.entry io al.nums pos
    done (before + 1, right)

  -- The numbers that go with a left-hand side.
  pub get : AdjacencyList → ℕ → Run LogArray
  unfolding left_count offset_for
  get al index = if ltb index 1 then panic else do
    count ← left_count al
    if ltb count index then panic else do
      start ← offset_for al index
      found ← select1 io al.bits index
      end ← unwrap_some found
      span ← checked_sub end start
      LogArray.slice_array al.nums start (span + 1)

  -- The loop of `next`, which passes over a right-hand side of 0. Each round moves on, so a fuel
  -- above what is left is enough.
  pub next_loop : ℕ → AdjacencyListIterator → Run (Option (ℕ × ℕ) × AdjacencyListIterator)
  next_loop zero it = panic
  next_loop (suc fuel) it =
      let ends : Run (Option (ℕ × ℕ) × AdjacencyListIterator) = done (none, it) in
      let round =
        (BitIndex.get it.bits it.pos >>= λ bit. LogArray.entry io it.nums it.pos >>= λ num.
        let it' = record it { left = if bit then it.left + 1 else it.left; pos = it.pos + 1 } in
        let again = next_loop fuel it' in
        let pair = done (some (it.left, num), it') in if num == 0 then again else pair) in
      if leb (BitIndex.len it.bits) it.pos then ends else round

  pub next : AdjacencyListIterator → Run (Option (ℕ × ℕ) × AdjacencyListIterator)
  unfolding next_loop
  next it = next_loop (BitIndex.len it.bits - it.pos + 1) it

  -- All that the iterator hands out in at most `n` calls.
  pub collect : ℕ → AdjacencyListIterator → Run (List (ℕ × ℕ))
  unfolding next
  collect zero it = done []
  collect (suc n) it = next it >>= λ (item, it').
      let rest = collect n it' in
      elim item [ none ↦ done [] | some pair ↦ (rest >>= λ pairs. done (pair ∷ pairs)) ]
