-- ===== src/BitIndex/Rank.antt =====
-- The rank queries count the bits of the array.
use mathlib.Core.List.{append-nil}
use tdb_succinct_wasm.Base.{
  ℕ, zero, suc, ◌+◌, ◌-◌, ◌*◌, ◌/◌, ◌%◌, ◌≤◌, ◌<◌, min, ◌≡◌, refl, ap, Bool, true, false, List, [],
  length, get_or, ltb, ◌==◌, All, done, arith,
}
use tdb_succinct_wasm.Bits.Shift.{◌>>>◌}
use tdb_succinct_wasm.Bits.Count.{count_ones}
use tdb_succinct_wasm.Bits.Front.{front_ones, count_ones-shr, front_ones_all}
use tdb_succinct_wasm.Words.{Buffers, to_be_bytes}
use tdb_succinct_wasm.Words.Stream.{
  IsWord, stream_bit, stream_bit_at, get_or-IsWord, slice-be_words,
}
use tdb_succinct_wasm.LogArray.Entry
use tdb_succinct_wasm.LogArray.Entry.{entry-Represents}
use tdb_succinct_wasm.BitArray.Get
use tdb_succinct_wasm.BitArray.Get.{digit, ones}
use tdb_succinct_wasm.BitIndex.{BitIndex, rank1}

-- The ones among the first `n` bits of a stream of words, and in its first `k` words.
stream_ones : List ℕ → ℕ → ℕ
stream_ones ws zero = 0
stream_ones ws (suc n) = stream_ones ws n + stream_bit ws n

unfoldable pub word_ones : List ℕ → ℕ → ℕ
word_ones ws zero = 0
word_ones ws (suc k) = word_ones ws k + count_ones (get_or ws k 0)

-- The stream is counted word by word.
stream_ones_word :
    (ws : List ℕ) (q r : ℕ)
    → r ≤ 64
    → stream_ones ws (64 * q + r) ≡ stream_ones ws (64 * q) + front_ones (get_or ws q 0) r
unfolding stream_ones front_ones
stream_ones_word ws q zero h = let e : 64 * q + 0 ≡ 64 * q = omega arith in rw e (omega arith)
stream_ones_word ws q (suc r) h =
    let e : 64 * q + suc r ≡ suc (64 * q + r) = omega arith in
    rw e (
      omega (
        arith,
        stream_ones_word ws q r (omega arith),
        stream_bit_at ws (64 * q + r) q r refl (omega arith),
      ))

stream_ones_words : (ws : List ℕ) (q : ℕ) → All IsWord ws → stream_ones ws (64 * q) ≡ word_ones ws q
unfolding stream_ones word_ones
stream_ones_words ws zero h = refl
stream_ones_words ws (suc q) h =
    let e : 64 * suc q ≡ 64 * q + 64 = omega arith in
    rw e (
      omega (
        arith,
        stream_ones_word ws q 64 (omega arith),
        stream_ones_words ws q h,
        front_ones_all (get_or ws q 0) (get_or-IsWord ws q h),
      ))

ones-stream_ones :
    (ws : List ℕ) (bs : List Bool) (n : ℕ)
    → ((i : ℕ) → i < n → stream_bit ws i ≡ digit (get_or bs i false))
    → ones bs n ≡ stream_ones ws n
unfolding ones stream_ones
ones-stream_ones ws bs zero h = refl
ones-stream_ones ws bs (suc n) h =
    omega (arith, ones-stream_ones ws bs n (λ i p. h i (omega arith)), h n (omega arith))

-- The ones up to and with index `i`, by whole words and the front of one word.
ones_split :
    (ws : List ℕ) (bs : List Bool) (i : ℕ)
    → All IsWord ws
    → ((k : ℕ) → k < i + 1 → stream_bit ws k ≡ digit (get_or bs k false))
    → ones bs (i + 1) ≡ word_ones ws (i / 64) + count_ones (get_or ws (i / 64) 0 >>> (63 - i % 64))
ones_split ws bs i words h =
    let q = i / 64 in
    let place : i + 1 ≡ 64 * q + (i % 64 + 1) = omega arith in
    let shift : 64 - (i % 64 + 1) ≡ 63 - i % 64 = omega arith in
    omega (
      arith,
      ones-stream_ones ws bs (i + 1) h,
      ap (stream_ones ws) place,
      stream_ones_word ws q (i % 64 + 1) (omega arith),
      stream_ones_words ws q words,
      rw shift at
          (count_ones-shr (get_or ws q 0) (i % 64 + 1) (get_or-IsWord ws q words) (omega arith)),
    )

-- The index is right for the bits `bs`: the array holds them; there is a block for each 64 of them
-- and a superblock for each 52 blocks; a superblock's rank counts the ones up to its end, and a
-- block's the ones from its start to the end of its superblock.
pub record IsIndexed (bi : BitIndex) (bs : List Bool) : Type 0 where
  pub ws : List ℕ
  pub array : Get.Represents bi.array ws bs
  pub bws : List ℕ
  pub bl : List ℕ
  pub blocks : Entry.Represents bi.blocks bws bl
  pub sws : List ℕ
  pub sl : List ℕ
  pub sblocks : Entry.Represents bi.sblocks sws sl
  pub block_count : bi.blocks.len ≡ (length bs + 63) / 64
  pub sblock_count : bi.sblocks.len ≡ (bi.blocks.len + 51) / 52
  pub sblock_rank :
      (s : ℕ) → s < bi.sblocks.len → get_or sl s 0 ≡ word_ones ws (min (52 * (s + 1)) bi.blocks.len)
  pub block_rank :
      (b : ℕ) → b < bi.blocks.len → get_or bl b 0 + word_ones ws b ≡ get_or sl (b / 52) 0

module _ (io : Buffers) {bi : BitIndex} {bs : List Bool} (ix : IsIndexed bi bs) where
  -- On a bit index of the bits `bs`, `rank1` answers for every index within the array the number of
  -- ones up to and with it.
  pub rank1-ones : (i : ℕ) → i < length bs → rank1 io bi i ≡ done (ones bs (i + 1))
  unfolding rank1
  rank1-ones i h =
      let q = i / 64 in
      let s = q / 52 in
      let count = ix.block_count in
      let scount = ix.sblock_count in
      let size = ix.array.len in
      let block = entry-Represents io ix.blocks q (omega arith) in
      let sblock = entry-Represents io ix.sblocks s (omega arith) in
      let bits =
        slice-be_words bi.array.buf ix.ws ix.array.tail q ix.array.buf
          (omega (arith, ix.array.room)) in
      let eight : (length (to_be_bytes 8 (get_or ix.ws q 0)) == 8) ≡ true =
        unfold to_be_bytes in refl in
      let word : io.read_u64 (to_be_bytes 8 (get_or ix.ws q 0)) ≡ done (get_or ix.ws q 0) =
        rw (append-nil (to_be_bytes 8 (get_or ix.ws q 0))) at
          (io.read_u64_lem (get_or ix.ws q 0) [] (get_or-IsWord ix.ws q ix.array.words)) in
      let ranks = ix.block_rank q (omega arith) in
      let ordered : ltb (get_or ix.sl s 0) (get_or ix.bl q 0) ≡ false = ground arith in
      let total = ones_split ix.ws bs i ix.array.words (λ k p. ix.array.holds k (omega arith)) in
      rw (block, sblock, bits, eight, word, ordered) (ap done (omega arith))
