-- ===== src/LogArray/Builder/Finalize.antt =====
-- Runs of `push`, the end of the data, and the control word.
use native.Mathlib.Decide.{dec_lt}
use mathlib.Core.List.{append_assoc, append-nil}
use mathlib.Core.Path.{ap₂}
use tdb_succinct_wasm.Base.{
  ℕ, ◌+◌, ◌-◌, ◌*◌, ◌/◌, ◌%◌, ◌^◌, ◌≤◌, ◌<◌, bit_and, ◌≡◌, refl, sym, ap, ◌∙◌, true, false, ◌⊎◌,
  inl, inr, List, [], ◌∷◌, ◌++◌, length, length-append, leb, ltb, ◌==◌, All, All-snoc, done, panic,
  Bool-cases, arith,
}
use tdb_succinct_wasm.Bits.Digit.{bit_of_zero}
use tdb_succinct_wasm.Bits.Count.{leading_zeros, leading_zeros_fits}
use tdb_succinct_wasm.Bits.Mask.{bit_and-0x3f, bit_and-0xffffff, bit_and-0xffffffff}
use tdb_succinct_wasm.Words.{Buffers, to_be_bytes}
use tdb_succinct_wasm.Words.Stream.{
  IsWord, stream_bit, be_words, be_words-snoc, stream_bit-append_left,
}
use tdb_succinct_wasm.LogArray.Builder.{
  Builder, new, push, push_vec, finalize_data, control_word, write_control_word, finalize,
  finalize_without_control_word, max_logarray_len,
}
use tdb_succinct_wasm.LogArray.Builder.Push.{Encodes, Holds}
use tdb_succinct_wasm.LogArray.Builder.Step.{push-Encodes}

pub new-Encodes : (front : List ℕ) (w : ℕ) → 0 < w → w ≤ 64 → Encodes front (new front w) []
unfolding new
new-Encodes front w lo hi = record {
  words = [];
  buf = unfold be_words in sym (append-nil front);
  all_words = tt;
  current_word = omega arith;
  width_pos = lo;
  width_le = hi;
  offset_lt = omega arith;
  place = omega arith;
  count = refl;
  small = tt;
  clear = λ k h. bit_of_zero k;
  holds = λ i j h k. absurd (omega arith);
}

module _ (io : Buffers) where
  push_panics :
      {front : List ℕ} {b : Builder} {vs : List ℕ} (val : ℕ)
      → Encodes front b vs
      → val < 2 ^ 64
      → ¬ (val < 2 ^ b.width)
      → push io b val ≡ panic
  unfolding push
  push_panics {b} val enc word large =
      let hi = enc.width_le in
      let narrow : ltb 64 b.width ≡ false = ground arith in
      let test : leb (64 - b.width) (leading_zeros val) ≡ false =
        elim (Bool-cases (leb (64 - b.width) (leading_zeros val))) [
          | inl fits ↦ absurd (large ((leading_zeros_fits val b.width word hi).0 (ground arith)))
          | inr less ↦ less
        ] in
      rw (narrow, test)

  -- On a builder that holds the values pushed so far, the push of any `u64` has one of two outcomes. A
  -- number that fits the width is taken: there is no panic, the width stays, and the builder holds
  -- the old values and behind them the new one. A number of 2 ^ width or more panics.
  pub push_cases :
      {front : List ℕ} {b : Builder} {vs : List ℕ} (val : ℕ)
      → Encodes front b vs
      → val < 2 ^ 64
      → ((val < 2 ^ b.width)
          × ((b' : Builder) × (push io b val ≡ done b')
              × (b'.width ≡ b.width)
              × Encodes front b' (vs ++ (val ∷ []))))
        ⊎ ((2 ^ b.width ≤ val) × (push io b val ≡ panic))
  push_cases {b} val enc word = elim (dec_lt val (2 ^ b.width)) [
    | yes fits ↦ inl (fits, push-Encodes io enc val fits)
    | no large ↦ inr (omega arith, push_panics val enc word large)
  ]

  pub push_vec-Encodes :
      (vals : List ℕ) {front : List ℕ} {b : Builder} {vs : List ℕ}
      → Encodes front b vs
      → All (λ v. v < 2 ^ b.width) vals
      → (b' : Builder) × (push_vec io b vals ≡ done b')
        × (b'.width ≡ b.width)
        × Encodes front b' (vs ++ vals)
  unfolding push_vec
  push_vec-Encodes [] {b} {vs} enc h = (b, refl, refl, rw (append-nil vs) enc)
  push_vec-Encodes (val ∷ vals) {b} {vs} enc (h, t) =
      let (b1, first, same, enc1) = push-Encodes io enc val h in
      let (b2, rest, same', enc2) = push_vec-Encodes vals enc1 (rw same t) in
      (b2, rw first rest, same' ∙ same, rw (append_assoc vs (val ∷ []) vals) at enc2)

-- A run from an empty builder, behind any bytes.
pub push_vec-new :
    (io : Buffers) (front : List ℕ) (w : ℕ) (vals : List ℕ)
    → 0 < w
    → w ≤ 64
    → All (λ v. v < 2 ^ w) vals
    → (b : Builder) × (push_vec io (new front w) vals ≡ done b)
      × (b.width ≡ w)
      × Encodes front b vals
unfolding new
push_vec-new io front w vals lo hi small =
    push_vec-Encodes io vals (new-Encodes front w lo hi) small

-- The data of a finished array: as many words as the values need, with the values in their stream.
pub record Data (front buf : List ℕ) (w : ℕ) (vs : List ℕ) : Type 0 where
  pub words : List ℕ
  pub bytes : buf ≡ front ++ be_words words
  pub all_words : All IsWord words
  pub enough : w * length vs ≤ 64 * length words
  pub no_more : 64 * length words < w * length vs + 64
  pub holds : Holds (stream_bit words) w vs

pub finalize_data-Data :
    (io : Buffers) {front : List ℕ} {b : Builder} {vs : List ℕ}
    → Encodes front b vs
    → Data front (finalize_data io b).buf b.width vs
unfolding finalize_data
finalize_data-Data io {front} {b} {vs} enc =
    let mask = bit_and-0x3f (b.count * b.width) in
    let total : b.count * b.width ≡ b.width * length vs =
      omega (arith, ap (λ (t : ℕ). t * b.width) enc.count) in
    elim (Bool-cases (bit_and (b.count * b.width) 0x3f == 0)) [
      | inl even ↦ rw even (
          let aligned : b.offset ≡ 0 = ground (arith, enc.place, enc.offset_lt) in
          record {
            words = enc.words;
            bytes = enc.buf;
            all_words = enc.all_words;
            enough = omega (arith, enc.place);
            no_more = omega (arith, enc.place);
            holds = λ i j h k.
                sym (
                  stream_bit-append_left enc.words b.current (b.width * i + j)
                    (grind (arith, enc.place)))
                ∙ enc.holds i j h k;
          })
      | inr odd ↦ rw odd (
          let more = length-append enc.words (b.current ∷ []) in
          let some_left : 0 < b.offset = ground (arith, enc.place, enc.offset_lt) in
          record {
            words = enc.words ++ (b.current ∷ []);
            bytes =
                io.put_u64_lem b.buf b.current enc.current_word
                ∙ ap (λ t. t ++ to_be_bytes 8 b.current) enc.buf
                ∙ append_assoc front (be_words enc.words) (to_be_bytes 8 b.current)
                ∙ ap (λ t. front ++ t) (sym (be_words-snoc enc.words b.current));
            all_words = All-snoc IsWord enc.words b.current enc.all_words enc.current_word;
            enough = omega (arith, enc.place, enc.offset_lt);
            no_more = omega (arith, enc.place);
            holds = enc.holds;
          })
    ]

-- The bytes of the control word: the low 32 bits of the length, the width, the next 24 bits.
abbrev pub header : ℕ → ℕ → List ℕ
header len w = to_be_bytes 4 (len % 2 ^ 32) ++ to_be_bytes 4 (w * 2 ^ 24 + len / 2 ^ 32)

pub control_word_lem :
    (io : Buffers) (len w : ℕ)
    → len < 2 ^ 56
    → w < 256
    → control_word io len w ≡ done (header len w)
unfolding control_word to_be_bytes
control_word_lem io len w h k =
    let asserted : leb len max_logarray_len ≡ true = ground arith in
    let high : bit_and (len / 2 ^ 32) 0xffffff ≡ len / 2 ^ 32 =
      bit_and-0xffffff (len / 2 ^ 32) ∙ omega arith in
    rw
      (
        asserted,
        bit_and-0xffffffff len,
        high,
        io.write_u32_lem 0 0 0 0 (len % 2 ^ 32) (0 ∷ 0 ∷ 0 ∷ 0 ∷ []) (omega arith),
        io.write_u32_lem 0 0 0 0 (len / 2 ^ 32) [] (omega arith),
      )
      (ground arith)

finalize_data_keeps :
    (io : Buffers) (b : Builder)
    → ((finalize_data io b).count ≡ b.count) × ((finalize_data io b).width ≡ b.width)
unfolding finalize_data
finalize_data_keeps io b = ground arith

-- Without the control word, only the data stands behind `front`.
pub finalize_without_control_word_lem :
    (io : Buffers) {front : List ℕ} {b : Builder} {vs : List ℕ}
    → Encodes front b vs
    → Data front (finalize_without_control_word io b) b.width vs
unfolding finalize_without_control_word
finalize_without_control_word_lem io enc = finalize_data-Data io enc

-- `finalize` writes the data of the array and its control word behind `front`.
pub finalize_lem :
    (io : Buffers) {front : List ℕ} {b : Builder} {vs : List ℕ}
    → Encodes front b vs
    → length vs < 2 ^ 56
    → (data_bytes : List ℕ) × (finalize io b ≡ done (data_bytes ++ header (length vs) b.width))
      × Data front data_bytes b.width vs
unfolding finalize write_control_word
finalize_lem io {b} {vs} enc h =
    let d = finalize_data io b in
    let (count, width) = finalize_data_keeps io b in
    let word : control_word io d.count d.width ≡ done (header (length vs) b.width) =
      ap₂ (control_word io) (count ∙ enc.count) width
      ∙ control_word_lem io (length vs) b.width h (omega (arith, enc.width_le)) in
    (
      d.buf,
      rw word (ap done (io.put_slice_lem d.buf (header (length vs) b.width))),
      finalize_data-Data io enc,
    )
