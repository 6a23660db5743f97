-- ===== src/WaveletTree.antt =====
-- wavelettree.rs: reading a wavelet tree, layer by layer, through the index of its bits.
pub mod Lookup
use tdb_succinct_wasm.Base.{
  ℕ, zero, suc, ◌+◌, ◌-◌, ◌*◌, ◌/◌, ◌%◌, ◌^◌, Bool, true, false, ◌&&◌, not, Option, none, some,
  List, [], ◌∷◌, ◌++◌, ltb, leb, ◌==◌, if◌then◌else◌, Run, done, panic, ◌>>=◌, ◌>>◌, assert,
  checked_sub,
}
use tdb_succinct_wasm.Words.{Buffers}
use tdb_succinct_wasm.BitIndex
use tdb_succinct_wasm.BitIndex.{BitIndex, rank0_from_range, rank1_from_range}

pub record WaveletTree : Type 0 where
  pub bits : BitIndex
  pub num_layers : ℕ

pub from_parts : BitIndex → ℕ → Run WaveletTree
from_parts bits num_layers =
    if not (num_layers == 0) && not (BitIndex.len bits % num_layers == 0)
    then panic
    else done (record { bits = bits; num_layers = num_layers })

pub len : WaveletTree → ℕ
len tree = if tree.num_layers == 0 then 0 else BitIndex.len tree.bits / tree.num_layers

-- `2_u64.pow`.
abbrev pub pow2 : ℕ → Run ℕ
pow2 k = if ltb k 64 then done (2 ^ k) else panic

-- A lookup keeps for each layer the bit of its entry and the range to search.
pub record WaveletLookup : Type 0 where
  pub entry : ℕ
  pub tree : WaveletTree
  pub slices : List (Bool × ℕ × ℕ)

-- What the loop of `decode_one` carries from layer to layer.
pub record DecodeState : Type 0 where
  pub offset : ℕ
  pub alphabet_start : ℕ
  pub alphabet_end : ℕ
  pub range_start : ℕ
  pub range_end : ℕ

module _ (io : Buffers) where
  -- The round of `decode_one` at layer `i` of a tree of the given length.
  pub decode_layer : WaveletTree → ℕ → ℕ → DecodeState → Run DecodeState
  decode_layer tree width i s = do
    let index = i * width + s.range_start + s.offset
    assert (ltb index (BitIndex.len tree.bits))
    bit ← BitIndex.get tree.bits index
    let range_start_index = i * width + s.range_start
    let range_end_index = i * width + s.range_end
    let half = (s.alphabet_start + s.alphabet_end) / 2
    if bit
        then (do
          ones ← rank1_from_range io tree.bits range_start_index (index + 1)
          offset ← checked_sub ones 1
          zeros_in_range ← rank0_from_range io tree.bits range_start_index range_end_index
          done (record s {
            offset = offset;
            alphabet_start = half;
            range_start = s.range_start + zeros_in_range;
          }))
        else do
          zeros ← rank0_from_range io tree.bits range_start_index (index + 1)
          offset ← checked_sub zeros 1
          ones_in_range ← rank1_from_range io tree.bits range_start_index range_end_index
          range_end ← checked_sub s.range_end ones_in_range
          done (record s { offset = offset; alphabet_end = half; range_end = range_end })

  -- The layers from `i` on, `n` of them.
  pub decode_layers : ℕ → WaveletTree → ℕ → ℕ → DecodeState → Run DecodeState
  unfolding decode_layer
  decode_layers zero tree width i s = done s
  decode_layers (suc n) tree width i s =
      decode_layer tree width i s >>= λ s'. decode_layers n tree width (i + 1) s'

  pub decode_one : WaveletTree → ℕ → Run ℕ
  unfolding decode_layers len
  decode_one tree index = do
    alphabet_end ← pow2 tree.num_layers
    let start : DecodeState = record {
      offset = index;
      alphabet_start = 0;
      alphabet_end = alphabet_end;
      range_start = 0;
      range_end = len tree;
    }
    s ← decode_layers tree.num_layers tree (len tree) 0 start
    last ← checked_sub s.alphabet_end 1
    assert (s.alphabet_start == last)
    done s.alphabet_start

  -- `decode`, `n` positions from `i` on.
  pub decode_from : ℕ → WaveletTree → ℕ → Run (List ℕ)
  unfolding decode_one
  decode_from zero tree i = done []
  decode_from (suc n) tree i =
      decode_one tree i >>= λ num. decode_from n tree (i + 1) >>= λ nums. done (num ∷ nums)

  unfoldable pub decode : WaveletTree → Run (List ℕ)
  unfolding decode_from
  decode tree = decode_from (len tree) tree 0

  -- The loop of `lookup` from layer `i` on, `n` layers: the alphabet's range, the range of places,
  -- and the slices so far.
  pub lookup_layers :
      ℕ
      → WaveletTree
      → ℕ
      → ℕ
      → ℕ × ℕ
      → ℕ × ℕ
      → List (Bool × ℕ × ℕ)
      → Run (Option (List (Bool × ℕ × ℕ)))
  lookup_layers zero tree i entry alphabet range slices = done (some slices)
  lookup_layers (suc n) tree i entry (alphabet_start, alphabet_end) (start_index, end_index)
        slices =
      let full_start_index = i * len tree + start_index in
      let full_end_index = i * len tree + end_index in
      let b = leb ((alphabet_start + alphabet_end) / 2) entry in
      let slices' = slices ++ ((b, full_start_index, full_end_index) ∷ []) in
      let right =
        (pow2 n >>= λ half.
        rank0_from_range io tree.bits full_start_index full_end_index >>= λ zeros.
        let rest =
          lookup_layers n tree (i + 1) entry (alphabet_start + half, alphabet_end)
            (start_index + zeros, end_index) slices' in
        if start_index + zeros == end_index then done none else rest) in
      let left =
        (pow2 n >>= λ half. checked_sub alphabet_end half >>= λ below.
        rank1_from_range io tree.bits full_start_index full_end_index >>= λ ones.
        checked_sub end_index ones >>= λ before.
        let rest =
          lookup_layers n tree (i + 1) entry (alphabet_start, below) (start_index, before)
            slices' in
        if start_index == before then done none else rest) in
      if b then right else left

  unfoldable pub lookup : WaveletTree → ℕ → Run (Option WaveletLookup)
  unfolding lookup_layers len
  lookup tree entry = if tree.num_layers == 0 then done none else do
    alphabet_end ← pow2 tree.num_layers
    if leb alphabet_end entry then done none else do
      found ← lookup_layers tree.num_layers tree 0 entry (0, alphabet_end) (0, len tree) []
      elim found [
        | none ↦ done none
        | some slices ↦ done (some (record { entry = entry; tree = tree; slices = slices }))
      ]
