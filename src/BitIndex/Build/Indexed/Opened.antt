-- ===== src/BitIndex/Build/Indexed/Opened.antt =====
-- An index that is built from a finished bit array opens, and answers for its bits.
use tdb_succinct_wasm.Base.{
  ℕ, ◌+◌, ◌-◌, ◌*◌, ◌/◌, ◌^◌, ◌≤◌, ◌<◌, min, ◌≡◌, refl, ap, ◌∙◌, Bool, true, List, [], ◌∷◌, ◌++◌,
  map, length, length-append, ◌==◌, done, ok, arith,
}
use tdb_succinct_wasm.Bits.Count.{count_ones, leading_zeros}
use tdb_succinct_wasm.Words.{Buffers, to_be_bytes}
use tdb_succinct_wasm.LogArray.{parse}
use tdb_succinct_wasm.LogArray.Builder as NumBuilder
use tdb_succinct_wasm.LogArray.Finished.{finished}
use tdb_succinct_wasm.LogArray.Builder.Push.{Encodes}
use tdb_succinct_wasm.LogArray.Builder.Finalize.{new-Encodes}
use tdb_succinct_wasm.BitArray.{from_bits, iter_blocks}
use tdb_succinct_wasm.BitArray.Blocks.{iter_blocks-be_words}
use tdb_succinct_wasm.BitArray.Builder.RoundTrip.{Data, opened, from_bits-Data, opened-Represents}
use tdb_succinct_wasm.BitIndex.{BitIndex, sblock_size, from_parts}
use tdb_succinct_wasm.BitIndex.Rank.{IsIndexed, word_ones}
use tdb_succinct_wasm.BitIndex.Build.{sum, build_bitindex_from_block_iter, build_bitindex_from_buf}
use tdb_succinct_wasm.BitIndex.Build.Blocks.{
  all_block_values, sblock_values, sum-count_ones-le, push_chunks-Encodes,
}
use tdb_succinct_wasm.BitIndex.Build.Indexed.{IsChunked, IsChunked-short, values-IsRanked}

-- The ones of all groups.
chunks_ones :
    (n : ℕ) (xs : List ℕ) (css : List (List ℕ))
    → IsChunked n xs css
    → sum (map (λ chunk. sum (map count_ones chunk)) css) ≤ 64 * length xs
unfolding IsChunked sum
chunks_ones n xs [] h = omega arith
chunks_ones n xs (c ∷ css) (rest, e, some_words, most, full, h) =
    omega (arith, chunks_ones n rest css h, sum-count_ones-le c, ap length e, length-append c rest)

-- The index that is built, with the three buffers opened.
pub record IsBuilt (io : Buffers) (bits blocks sblocks : List ℕ) (bs : List Bool) : Type 0 where
  pub index : BitIndex
  pub array_lem : from_bits io bits ≡ done (ok index.array)
  pub blocks_lem : parse io blocks ≡ done (ok index.blocks)
  pub sblocks_lem : parse io sblocks ≡ done (ok index.sblocks)
  pub parts_lem : from_parts index.array index.blocks index.sblocks ≡ done index
  pub indexed : IsIndexed index bs

module _ (io : Buffers) (chunks : ℕ → List ℕ → List (List ℕ))
    (chunks_lem : (n : ℕ) (xs : List ℕ) → 0 < n → IsChunked n xs (chunks n xs)) where
  block_width : 64 - leading_zeros (sblock_size * 64) ≡ 12
  unfolding leading_zeros
  block_width = refl

  -- From a finished bit array of fewer than 2 ^ 61 bits the construction of the index does not panic,
  -- and the array's buffer and the two new ones open as a bit index whose counts are those of the
  -- bits. The groups of the crate itertools are a parameter.
  pub build-IsBuilt :
      {bytes : List ℕ} {bs : List Bool}
      → Data bytes bs
      → length bs < 2 ^ 61
      → (blocks sblocks : List ℕ) × (build_bitindex_from_buf io chunks
            (bytes ++ to_be_bytes 8 (length bs))
            []
            []
          ≡ done (blocks, sblocks))
        × IsBuilt io (bytes ++ to_be_bytes 8 (length bs)) blocks sblocks bs
  unfolding build_bitindex_from_buf build_bitindex_from_block_iter NumBuilder.new from_parts
  build-IsBuilt {bytes} {bs} d short =
      let ws = d.words in
      let tail = to_be_bytes 8 (length bs) in
      let css = chunks 52 ws in
      let chunked = chunks_lem 52 ws (omega arith) in
      let word : length bs < 2 ^ 64 = omega arith in
      let handed =
        ap (λ b. iter_blocks io (b ++ tail)) d.bytes
        ∙ iter_blocks-be_words io ws (length bs) d.all_words word in
      let start_b : Encodes [] (NumBuilder.new [] (64 - leading_zeros (sblock_size * 64))) [] =
        rw block_width (new-Encodes [] 12 (omega arith) (omega arith)) in
      let start_s : Encodes [] (NumBuilder.new [] 64) [] =
        new-Encodes [] 64 (omega arith) (omega arith) in
      let (b, s, run, wb, wsb, encb, encs) =
        push_chunks-Encodes io css 0 (64 * length ws) start_b start_s
          (IsChunked-short 52 ws css chunked) block_width refl
          (omega (arith, chunks_ones 52 ws css chunked)) (omega (arith, d.size)) in
      let ranked =
        values-IsRanked ws css 0 0 ws chunked (λ j p. let e : 52 * 0 + j ≡ j = omega arith in rw e)
          (unfold word_ones in refl) in
      let fb = finished io encb (omega (arith, ranked.block_count, d.size)) in
      let fs = finished io encs (omega (arith, ranked.sblock_count, d.size)) in
      let sizes : (fs.array.len == (fb.array.len + sblock_size - 1) / sblock_size) ≡ true =
        ground (arith, fs.len, fb.len, ranked.sblock_count, ranked.block_count) in
      let blocks_size : (fb.array.len == (length bs + 63) / 64) ≡ true =
        ground (arith, fb.len, ranked.block_count, d.size) in
      (
        fb.bytes,
        fs.bytes,
        rw (handed, run, fb.run, fs.run) refl,
        record {
          index = record { array = opened io d word; blocks = fb.array; sblocks = fs.array };
          array_lem = from_bits-Data io d word;
          blocks_lem = fb.parsed;
          sblocks_lem = fs.parsed;
          parts_lem = rw (sizes, blocks_size) refl;
          indexed = record {
            ws = ws;
            array = opened-Represents io d word;
            bws = fb.words;
            bl = all_block_values css;
            blocks = fb.represents;
            sws = fs.words;
            sl = sblock_values 0 css;
            sblocks = fs.represents;
            block_count = fb.len ∙ ranked.block_count ∙ d.size;
            sblock_count = omega (arith, fs.len, fb.len, ranked.sblock_count, ranked.block_count);
            sblock_rank = λ i p.
                let e : min (52 * (0 + i + 1)) (52 * 0 + length ws)
                    ≡ min (52 * (i + 1)) fb.array.len =
                  omega (arith, fb.len, ranked.block_count) in
                rw e at (ranked.sblock_rank i (omega (arith, fs.len)));
            block_rank = λ i p.
                let e : 52 * 0 + i ≡ i = omega arith in
                rw e at (ranked.block_rank i (omega (arith, fb.len, ranked.block_count)));
          };
        },
      )
