-- ===== src/BitIndex/Select.antt =====
-- bitindex.rs: the select queries. A search loop takes a fuel; where it runs out the loop would go
-- on, and the model answers `panic`.
pub mod Linear
use tdb_succinct_wasm.Base.{
  ℕ, zero, suc, ◌+◌, ◌-◌, ◌*◌, ◌/◌, ◌%◌, Bool, true, false, ◌&&◌, ◌||◌, not, Option, none, some,
  List, ltb, leb, ◌==◌, if◌then◌else◌, Run, done, panic, ◌>>=◌, ◌>>◌, assert, checked_sub, bit_and,
}
use tdb_succinct_wasm.Bits.Shift.{◌<<<◌, u64}
use tdb_succinct_wasm.Words.{Buffers}
use tdb_succinct_wasm.LogArray
use tdb_succinct_wasm.LogArray.{LogArray}
use tdb_succinct_wasm.BitIndex.{
  BitIndex, sblock_size, use_linear_bitscan, len, get, block_bits, rank1, rank0,
}

-- `bool == bool`.
abbrev pub same : Bool → Bool → Bool
same a b = if a then b else not b

abbrev pub unwrap_or : Option ℕ → ℕ → ℕ
unwrap_or none d = d
unwrap_or (some n) d = n

-- The loop over the places of a range, `n` of them from `i` on, that looks for the bit `find`.
pub scan : ℕ → BitIndex → Bool → ℕ → ℕ → Run (Option ℕ)
scan zero bi find i subrank = done none
scan (suc n) bi find i subrank = do
  bit ← get bi i
  let skip = scan n bi find (i + 1) subrank
  let hit = scan n bi find (i + 1) (subrank - 1)
  if same bit find
      then (checked_sub subrank 1 >>= λ left. if left == 0 then done (some i) else hit)
      else skip

pub select_from_range_opt_linear : BitIndex → ℕ → ℕ → Option ℕ → Bool → Run (Option ℕ)
unfolding scan
select_from_range_opt_linear bi subrank start end find =
    if (elim end [ none ↦ false | some e ↦ leb e start ])
    then done none
    else if subrank == 0
    then (get bi start >>= λ bit. done (if same bit find then none else some start))
    else scan (unwrap_or end (len bi) - start) bi find start subrank

-- The search for a superblock: the first in the range whose rank reaches `rank`. `rank_of` reads
-- the rank of a superblock.
search_sblock : (ℕ → Run ℕ) → ℕ → ℕ → ℕ → ℕ → Run ℕ
search_sblock rank_of zero rank start end = panic
search_sblock rank_of (suc fuel) rank start end =
    let mid = (start + end) / 2 in
    let found : Run ℕ = done mid in
    let step =
      (rank_of mid >>= λ r.
      let up = search_sblock rank_of fuel rank (mid + 1) end in
      let down = search_sblock rank_of fuel rank start mid in if ltb r rank then up else down) in
    if start == end then found else step

-- The search for a block: the last in the range whose subrank is above `subrank`.
search_block : (ℕ → Run ℕ) → ℕ → ℕ → ℕ → ℕ → Run ℕ
search_block subrank_of zero subrank start end = panic
search_block subrank_of (suc fuel) subrank start end =
    let mid = (start + end + 1) / 2 in
    let found : Run ℕ = done mid in
    let step =
      (subrank_of mid >>= λ r.
      let up = search_block subrank_of fuel subrank mid end in
      let down = search_block subrank_of fuel subrank start (mid - 1) in
      if ltb subrank r then up else down) in
    if start == end then found else step

-- The search within a block: the `tally`-th bit `find`, the `left` bits of `bits_num` from place
-- `i` on. The subtraction overflows on a tally of 0.
search_word : Bool → ℕ → ℕ → ℕ → ℕ → Run (Option ℕ)
search_word find zero i bits_num tally = done none
search_word find (suc left) i bits_num tally =
    let shifted = u64 (bits_num <<< 1) in
    let skip = search_word find left (i + 1) shifted tally in
    let hit = search_word find left (i + 1) shifted (tally - 1) in
    if same (not (bit_and bits_num 0x8000_0000_0000_0000 == 0)) find
    then (checked_sub tally 1 >>= λ rest. if rest == 0 then done (some i) else hit)
    else skip

-- What a select answers for the place that it found.
in_range : BitIndex → Bool → ℕ → ℕ → Option ℕ → ℕ → Run (Option ℕ)
in_range bi find subrank start end result =
    let below = ltb result start in
    let outside = below || (elim end [ none ↦ false | some e ↦ leb e result ]) in
    let answer : Run (Option ℕ) = done (if outside then none else some result) in
    if below && (elim end [ none ↦ true | some e ↦ ltb start e ]) && subrank == 0
    then (get bi start >>= λ bit. if same bit find then answer else done (some start))
    else answer

-- The bounds of a superblock search and of a block search.
sblock_bounds : BitIndex → ℕ → Option ℕ → Run (ℕ × ℕ)
sblock_bounds bi start end = do
  last ← elim end [ none ↦ checked_sub bi.sblocks.len 1 | some e ↦ done (e / (64 * sblock_size)) ]
  done (start / (64 * sblock_size), last)

block_bounds : BitIndex → ℕ → Run (ℕ × ℕ)
block_bounds bi sblock = do
  let start = sblock * sblock_size
  let end = start + sblock_size - 1
  last ← checked_sub bi.blocks.len 1
  done (start, if ltb last end then last else end)

-- The place of the `rank_in_block`-th bit `find` of a block, checked against the range.
find_in_block : Buffers → BitIndex → Bool → ℕ → ℕ → ℕ → ℕ → Option ℕ → Run (Option ℕ)
unfolding search_word in_range
find_in_block io bi find block rank_in_block subrank start end = do
  assert (leb rank_in_block 64)
  bits ← block_bits bi block
  bits_num ← io.read_u64 bits
  place ← search_word find 64 0 bits_num rank_in_block
  elim place [ none ↦ done none | some i ↦ in_range bi find subrank start end (block * 64 + i) ]

module _ (io : Buffers) where
  unfoldable pub select1_sblock_from_range : BitIndex → ℕ → ℕ → Option ℕ → Run ℕ
  unfolding search_sblock sblock_bounds
  select1_sblock_from_range bi rank start end = do
    (first, last) ← sblock_bounds bi start end
    search_sblock (λ mid. LogArray.entry io bi.sblocks mid) (last + 1) rank first last

  unfoldable pub select1_block : BitIndex → ℕ → ℕ → Run ℕ
  unfolding search_block block_bounds
  select1_block bi sblock subrank = do
    (first, last) ← block_bounds bi sblock
    search_block (λ mid. LogArray.entry io bi.blocks mid) (last + 1) subrank first last

  unfoldable pub select1_from_range_opt : BitIndex → ℕ → ℕ → Option ℕ → Run (Option ℕ)
  unfolding find_in_block
  select1_from_range_opt bi subrank start end =
      if use_linear_bitscan start (unwrap_or end (len bi))
      then select_from_range_opt_linear bi subrank start end true
      else do
        before ← (if start == 0 then done 0 else rank1 io bi (start - 1))
        let rank = before + subrank
        sblock ← select1_sblock_from_range bi rank start end
        sblock_rank ← LogArray.entry io bi.sblocks sblock
        if ltb sblock_rank rank then done none else do
          block ← select1_block bi sblock (sblock_rank - rank)
          block_subrank ← LogArray.entry io bi.blocks block
          base ← checked_sub sblock_rank block_subrank
          rank_in_block ← checked_sub rank base
          find_in_block io bi true block rank_in_block subrank start end

  unfoldable pub select1 : BitIndex → ℕ → Run (Option ℕ)
  select1 bi rank = select1_from_range_opt bi rank 0 none

  unfoldable pub select1_from_range : BitIndex → ℕ → ℕ → ℕ → Run (Option ℕ)
  select1_from_range bi subrank start end = select1_from_range_opt bi subrank start (some end)

  -- The zeros of a superblock up to its end, and of a block to the end of its superblock.
  sblock_rank0 : BitIndex → ℕ → Run ℕ
  sblock_rank0 bi mid =
      LogArray.entry io bi.sblocks mid >>= λ r. checked_sub ((1 + mid) * sblock_size * 64) r

  block_subrank0 : BitIndex → ℕ → Run ℕ
  block_subrank0 bi mid = LogArray.entry io bi.blocks mid >>= λ r.
      checked_sub ((sblock_size - mid % sblock_size) * 64) r

  unfoldable pub select0_sblock_from_range : BitIndex → ℕ → ℕ → Option ℕ → Run ℕ
  unfolding search_sblock sblock_bounds sblock_rank0
  select0_sblock_from_range bi rank start end = do
    (first, last) ← sblock_bounds bi start end
    search_sblock (λ mid. sblock_rank0 bi mid) (last + 1) rank first last

  unfoldable pub select0_block : BitIndex → ℕ → ℕ → Run ℕ
  unfolding search_block block_bounds block_subrank0
  select0_block bi sblock subrank = do
    (first, last) ← block_bounds bi sblock
    search_block (λ mid. block_subrank0 bi mid) (last + 1) subrank first last

  unfoldable pub select0_from_range_opt : BitIndex → ℕ → ℕ → Option ℕ → Run (Option ℕ)
  unfolding find_in_block sblock_rank0 block_subrank0
  select0_from_range_opt bi subrank start end =
      if use_linear_bitscan start (unwrap_or end (len bi))
      then select_from_range_opt_linear bi subrank start end false
      else do
        before ← (if start == 0 then done 0 else rank0 io bi (start - 1))
        let rank = before + subrank
        sblock ← select0_sblock_from_range bi rank start end
        sblock_rank ← sblock_rank0 bi sblock
        if ltb sblock_rank rank then done none else do
          block ← select0_block bi sblock (sblock_rank - rank)
          block_subrank ← block_subrank0 bi block
          base ← checked_sub sblock_rank block_subrank
          rank_in_block ← checked_sub rank base
          find_in_block io bi false block rank_in_block subrank start end

  unfoldable pub select0 : BitIndex → ℕ → Run (Option ℕ)
  select0 bi rank = select0_from_range_opt bi rank 0 none

  unfoldable pub select0_from_range : BitIndex → ℕ → ℕ → ℕ → Run (Option ℕ)
  select0_from_range bi subrank start end = select0_from_range_opt bi subrank start (some end)
