-- ===== src/BitArray/Blocks.antt =====
-- The iterator over blocks hands out every word but the last, which is the length.
use tdb_succinct_wasm.Base.{
  ℕ, zero, suc, ◌+◌, ◌^◌, ◌<◌, ◌≡◌, refl, sym, ap, ◌∙◌, true, false, none, some, List, [], ◌∷◌,
  ◌++◌, length, length-append, ltb, All, All-snoc, done, arith,
}
use tdb_succinct_wasm.Words.{Buffers, to_be_bytes}
use tdb_succinct_wasm.Words.Stream.{IsWord, be_words, be_words-snoc, length-be_words}
use tdb_succinct_wasm.BitArray.{
  decode_held, decode_next_bitarray_block, collect_blocks, iter_blocks,
}

-- All but the last of a word and those behind it.
but_last : ℕ → List ℕ → List ℕ
but_last held [] = []
but_last held (w ∷ ws) = held ∷ but_last w ws

but_last-snoc : (w last : ℕ) (ws : List ℕ) → but_last w (ws ++ (last ∷ [])) ≡ w ∷ ws
unfolding but_last
but_last-snoc w last [] = refl
but_last-snoc w last (x ∷ ws) = ap (λ l. w ∷ l) (but_last-snoc x last ws)

module _ (io : Buffers) where
  held_end : (held : ℕ) → decode_held io [] held ≡ done (none, [], some held)
  unfolding decode_held
  held_end held =
      let e : ltb (io.remaining []) 8 ≡ true = ground (arith, io.remaining_lem []) in rw e refl

  enough : (w : ℕ) (ws : List ℕ) → ltb (io.remaining (be_words (w ∷ ws))) 8 ≡ false
  enough w ws = ground (arith, io.remaining_lem (be_words (w ∷ ws)), length-be_words (w ∷ ws))

  held_word :
      (held w : ℕ) (ws : List ℕ)
      → w < 2 ^ 64
      → decode_held io (be_words (w ∷ ws)) held ≡ done (some held, be_words ws, some w)
  unfolding decode_held be_words
  held_word held w ws h = rw (enough w ws, io.get_u64_lem w (be_words ws) h) refl

  collect_held :
      (fuel held : ℕ) (ws : List ℕ)
      → length ws < fuel
      → All IsWord ws
      → collect_blocks io fuel (be_words ws) (some held) ≡ done (but_last held ws)
  unfolding collect_blocks decode_next_bitarray_block but_last
  collect_held zero held ws h words = absurd (omega arith)
  collect_held (suc fuel) held [] h words = unfold be_words in rw (held_end held) refl
  collect_held (suc fuel) held (w ∷ ws) h (word, words) =
      rw (held_word held w ws word, collect_held fuel w ws (omega arith) words) refl

  -- None is held back at the start.
  collect_first :
      (fuel w : ℕ) (ws : List ℕ)
      → w < 2 ^ 64
      → collect_blocks io (suc fuel) (be_words (w ∷ ws)) none
        ≡ collect_blocks io (suc fuel) (be_words ws) (some w)
  unfolding collect_blocks decode_next_bitarray_block be_words
  collect_first fuel w ws h = rw (enough w ws, io.get_u64_lem w (be_words ws) h) refl

  collect-but_last :
      (fuel last : ℕ) (ws : List ℕ)
      → length ws < fuel
      → All IsWord (ws ++ (last ∷ []))
      → collect_blocks io (suc fuel) (be_words (ws ++ (last ∷ []))) none ≡ done ws
  collect-but_last fuel last [] h (word, words) =
      collect_first fuel last [] word
      ∙ collect_held (suc fuel) last [] (omega arith) tt
      ∙ (unfold but_last in refl)
  collect-but_last fuel last (w ∷ ws) h (word, words) =
      collect_first fuel w (ws ++ (last ∷ [])) word
      ∙ collect_held (suc fuel) w (ws ++ (last ∷ [])) (omega (arith, length-append ws (last ∷ [])))
          words
      ∙ ap done (but_last-snoc w last ws)

-- `bitarray_iter_blocks` on words below 2 ^ 64 with a length of 64 bits behind them hands out the
-- words.
pub iter_blocks-be_words :
    (io : Buffers) (ws : List ℕ) (n : ℕ)
    → All IsWord ws
    → n < 2 ^ 64
    → iter_blocks io (be_words ws ++ to_be_bytes 8 n) ≡ done ws
unfolding iter_blocks
iter_blocks-be_words io ws n words h =
    let bytes = be_words-snoc ws n in
    let size = length-be_words (ws ++ (n ∷ [])) in
    let fuel : length (be_words ws ++ to_be_bytes 8 n) + 1
        ≡ suc (length (be_words ws ++ to_be_bytes 8 n)) =
      omega arith in
    rw fuel (
      ap (λ b. collect_blocks io (suc (length b)) b none) (sym bytes)
      ∙ collect-but_last io (length (be_words (ws ++ (n ∷ [])))) n ws
          (omega (arith, size, length-append ws (n ∷ []))) (All-snoc IsWord ws n words h))
