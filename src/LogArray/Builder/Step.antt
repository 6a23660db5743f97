-- ===== src/LogArray/Builder/Step.antt =====
-- One `push`, and a run of them, on a builder that holds some values.
use native.Mathlib.Decide.{dec_lt}
use native.Mathlib.Nat.{pow-le-pow_right}
use mathlib.Core.List.{append_assoc}
use tdb_succinct_wasm.Base.{
  ℕ, ◌+◌, ◌-◌, ◌*◌, ◌^◌, ◌≤◌, ◌<◌, bit_or, ◌≡◌, refl, sym, ap, ◌∙◌, true, false, inl, inr, List, [],
  ◌∷◌, ◌++◌, length, length-append, leb, ltb, ◌==◌, All-snoc, done, Bool-cases, arith,
}
use tdb_succinct_wasm.Bits.Digit.{bit, bit-bit_or, bit_of_zero, bit_cong}
use tdb_succinct_wasm.Bits.Shift.{◌<<<◌, u64, bit-u64_shl, bit-u64_shl_low}
use tdb_succinct_wasm.Bits.Ext.{bit_or-lt}
use tdb_succinct_wasm.Bits.Count.{leading_zeros, leading_zeros_fits}
use tdb_succinct_wasm.Words.{Buffers, to_be_bytes}
use tdb_succinct_wasm.Words.Stream.{
  IsWord, stream_bit, be_words, be_words-snoc, stream_bit-append_left, stream_bit-append_last,
}
use tdb_succinct_wasm.LogArray.Builder.{Builder, push}
use tdb_succinct_wasm.LogArray.Builder.Push.{
  Encodes, Holds-snoc, part, part-IsWord, part_behind, or_before, or_inside,
}

module _ (io : Buffers) {front : List ℕ} {b : Builder} {vs : List ℕ} (enc : Encodes front b vs)
    (val : ℕ) (fits : val < 2 ^ b.width) where
  joined : ℕ
  joined = bit_or b.current (part b.width b.offset val)

  joined-IsWord : IsWord joined
  unfolding joined
  joined-IsWord = bit_or-lt 64 _ _ enc.current_word (part-IsWord b.width b.offset val)

  old_bits :
      (k : ℕ)
      → k < b.width * length vs
      → stream_bit (enc.words ++ (joined ∷ [])) k ≡ stream_bit (enc.words ++ (b.current ∷ [])) k
  unfolding joined
  old_bits k h =
      or_before enc.words b.current b.width b.offset val k (omega (arith, enc.place)) enc.offset_lt

  new_bits :
      (j : ℕ)
      → j < b.width
      → b.offset + j < 64
      → stream_bit (enc.words ++ (joined ∷ [])) (b.width * length vs + j)
        ≡ bit val (b.width - 1 - j)
  unfolding joined
  new_bits j h p =
      let place : 63 - (b.width * length vs + j - 64 * length enc.words) ≡ 63 - (b.offset + j) =
        omega (arith, enc.place) in
      stream_bit-append_last enc.words _ (b.width * length vs + j) (omega (arith, enc.place))
        (omega (arith, enc.place))
      ∙ bit_cong {a = joined} refl place
      ∙ or_inside enc.words b.current b.width b.offset val j enc.width_le enc.clear h p

  -- The value fits what is left of the current word.
  abbrev stay : Builder
  stay = record {
    buf = b.buf;
    width = b.width;
    current = joined;
    offset = b.offset + b.width;
    count = b.count + 1;
  }

  stay-Encodes : b.offset + b.width < 64 → Encodes front stay (vs ++ (val ∷ []))
  stay-Encodes room =
      let size = length-append vs (val ∷ []) in
      record {
        words = enc.words;
        buf = enc.buf;
        all_words = enc.all_words;
        current_word = joined-IsWord;
        width_pos = enc.width_pos;
        width_le = enc.width_le;
        offset_lt = room;
        place = omega (arith, enc.place, ap (λ (t : ℕ). b.width * t) size);
        count = omega (arith, enc.count);
        small = All-snoc (λ v. v < 2 ^ b.width) vs val enc.small fits;
        clear = λ k h.
            unfold joined in
            omega (
              arith,
              bit-bit_or b.current (part b.width b.offset val) k,
              enc.clear k (omega arith),
              part_behind b.width b.offset val k (omega arith),
            );
        holds =
            Holds-snoc _ _ b.width vs val (b.width * length vs) refl old_bits
              (λ j h. new_bits j h (omega arith)) enc.holds;
      }

  -- The value fills the current word, and `rest` holds what it takes beyond.
  abbrev spill : ℕ → Builder
  spill rest = record {
    buf = io.put_u64 b.buf joined;
    width = b.width;
    current = rest;
    offset = b.offset + b.width - 64;
    count = b.count + 1;
  }

  spill-Encodes :
      (rest : ℕ)
      → 64 ≤ b.offset + b.width
      → IsWord rest
      → ((k : ℕ) → k < 64 - (b.offset + b.width - 64) → bit rest k ≡ 0)
      → ((j : ℕ)
          → j < b.width
          → 64 ≤ b.offset + j
          → bit rest (127 - (b.offset + j)) ≡ bit val (b.width - 1 - j))
      → Encodes front (spill rest) (vs ++ (val ∷ []))
  spill-Encodes rest full word clear second =
      let size = length-append vs (val ∷ []) in
      let words = enc.words ++ (joined ∷ []) in
      let more = length-append enc.words (joined ∷ []) in
      record {
        words = words;
        buf =
            io.put_u64_lem b.buf joined joined-IsWord
            ∙ ap (λ t. t ++ to_be_bytes 8 joined) enc.buf
            ∙ append_assoc front (be_words enc.words) (to_be_bytes 8 joined)
            ∙ ap (λ t. front ++ t) (sym (be_words-snoc enc.words joined));
        all_words = All-snoc IsWord enc.words joined enc.all_words joined-IsWord;
        current_word = word;
        width_pos = enc.width_pos;
        width_le = enc.width_le;
        offset_lt = omega (arith, enc.offset_lt, enc.width_le);
        place = omega (arith, enc.place, ap (λ (t : ℕ). b.width * t) size);
        count = omega (arith, enc.count);
        small = All-snoc (λ v. v < 2 ^ b.width) vs val enc.small fits;
        clear = clear;
        holds =
            Holds-snoc _ _ b.width vs val (b.width * length vs) refl
              (λ k h.
                stream_bit-append_left words rest k (omega (arith, enc.place, enc.offset_lt))
                ∙ old_bits k h)
              (λ j h. elim (dec_lt (b.offset + j) 64) [
                | yes p ↦
                    stream_bit-append_left words rest (b.width * length vs + j)
                      (omega (arith, enc.place))
                    ∙ new_bits j h p
                | no p ↦
                    stream_bit-append_last words rest (b.width * length vs + j)
                      (omega (arith, enc.place))
                      (omega (arith, enc.place, enc.offset_lt, enc.width_le))
                    ∙ bit_cong {a = rest} refl (omega (arith, enc.place))
                    ∙ second j h (omega arith)
              ])
              enc.holds;
      }

  -- A value that fits the width is taken, whatever room the current word has.
  pub push-Encodes :
      (b' : Builder) × (push io b val ≡ done b')
      × (b'.width ≡ b.width)
      × Encodes front b' (vs ++ (val ∷ []))
  unfolding push joined
  push-Encodes =
      let w = b.width in
      let off = b.offset in
      let lo = enc.width_pos in
      let hi = enc.width_le in
      let below = enc.offset_lt in
      let word : val < 2 ^ 64 =
        omega (arith, pow-le-pow_right {n = 2} (omega arith) {i = w} {j = 64} hi) in
      let narrow : ltb 64 w ≡ false = ground arith in
      let small : leb (64 - w) (leading_zeros val) ≡ true =
        ground (arith, (leading_zeros_fits val w word hi).1 fits) in
      let shift1 : ltb (64 - w) 64 ≡ true = ground arith in
      let shift2 : ltb off 64 ≡ true = ground arith in
      elim (Bool-cases (leb 64 (off + w))) [
        | inr stays ↦
            (stay, rw (narrow, small, shift1, shift2, stays), refl, stay-Encodes (ground arith))
        | inl full ↦ elim (Bool-cases (off + w - 64 == 0)) [
          | inl even ↦ (
            spill 0,
            rw (narrow, small, shift1, shift2, full, even),
            refl,
            spill-Encodes 0 (ground arith) (omega arith) (λ k h. bit_of_zero k)
                (λ j h p. absurd (ground arith)),
          )
          | inr odd ↦
              let borrow : ltb 64 (off + w - 64) ≡ false = ground arith in
              let shift3 : ltb (64 - (off + w - 64)) 64 ≡ true = ground arith in
              (
                spill (u64 (val <<< (64 - (off + w - 64)))),
                rw (narrow, small, shift1, shift2, full, odd, borrow, shift3),
                refl,
                spill-Encodes (u64 (val <<< (64 - (off + w - 64)))) (ground arith) (omega arith)
                    (λ k h. bit-u64_shl_low val (64 - (off + w - 64)) k h)
                    (λ j h p.
                      bit-u64_shl val (64 - (off + w - 64)) (127 - (off + j)) (ground arith)
                        (ground arith)
                      ∙ bit_cong {a = val} refl (ground arith)),
              )
        ]
      ]
