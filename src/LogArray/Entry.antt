-- ===== src/LogArray/Entry.antt =====
-- What `entry` reads: the bits of an element, put together from one word or from two.
use native.Mathlib.Decide.{dec_lt}
use tdb_succinct_wasm.Base.{
  ℕ, ◌+◌, ◌-◌, ◌*◌, ◌/◌, ◌%◌, ◌^◌, ◌≤◌, ◌<◌, bit_and, bit_or, ◌≡◌, sym, ap, ◌∙◌, true, false, inl,
  inr, List, ◌++◌, length, get_or, ltb, leb, All, done, Bool-cases, arith,
}
use tdb_succinct_wasm.Bits.Digit.{bit, bit-bit_or}
use tdb_succinct_wasm.Bits.Shift.{
  ◌<<<◌, ◌>>>◌, u64, bit-shr, bit_of_lt, bit-u64_shl, bit-u64_shl_low,
}
use tdb_succinct_wasm.Bits.Ext.{bit_ext_all}
use tdb_succinct_wasm.Bits.Mask.{bit_and-0x3f}
use tdb_succinct_wasm.Words.{Buffers}
use tdb_succinct_wasm.Words.Stream.{
  IsWord, stream_bit, be_words, get_or-IsWord, stream_bit_at, read_u64-be_words,
}
use tdb_succinct_wasm.LogArray.{LogArray, entry}

-- A word holds at place `off` the `w` bits of `v` that stand before its end.
one_word_bit :
    (fw off w v : ℕ)
    → off + w ≤ 64
    → v < 2 ^ w
    → ((j : ℕ) → j < w → bit fw (63 - (off + j)) ≡ bit v (w - 1 - j))
    → (i : ℕ) → bit (u64 (fw <<< off) >>> (64 - w)) i ≡ bit v i
one_word_bit fw off w v fits small same i = elim (dec_lt i w) [
  | yes p ↦
      let here : 63 - (off + (w - 1 - i)) ≡ i + (64 - w) - off = omega arith in
      let there : w - 1 - (w - 1 - i) ≡ i = omega arith in
      bit-shr (64 - w) (u64 (fw <<< off)) i
      ∙ bit-u64_shl fw off (i + (64 - w)) (omega arith) (omega arith)
      ∙ rw (here, there) at (same (w - 1 - i) (omega arith))
  | no p ↦
      bit-shr (64 - w) (u64 (fw <<< off)) i
      ∙ bit_of_lt 64 (u64 (fw <<< off)) (i + (64 - w)) (omega arith) (omega arith)
      ∙ sym (bit_of_lt w v i small (omega arith))
]

-- The upper bits from one word and the lower ones from the next.
two_words_bit :
    (fw sw off w v : ℕ)
    → off < 64
    → w ≤ 64
    → 64 < off + w
    → v < 2 ^ w
    → sw < 2 ^ 64
    → ((j : ℕ) → off + j < 64 → bit fw (63 - (off + j)) ≡ bit v (w - 1 - j))
    → ((j : ℕ) → 64 ≤ off + j → j < w → bit sw (127 - (off + j)) ≡ bit v (w - 1 - j))
    → (i : ℕ)
    → bit
        (bit_or (u64 ((u64 (fw <<< off) >>> off) <<< (off + w - 64))) (sw >>> (128 - (off + w))))
        i
      ≡ bit v i
two_words_bit fw sw off w v lo hi split small word first second i =
    let x = u64 (fw <<< off) in
    let part1 = u64 ((x >>> off) <<< (off + w - 64)) in
    let part2 = sw >>> (128 - (off + w)) in
    let joined = bit-bit_or part1 part2 i in
    let low2 = bit-shr (128 - (off + w)) sw i in
    elim (dec_lt i (off + w - 64)) [
      | yes p ↦
          let here : 127 - (off + (w - 1 - i)) ≡ i + (128 - (off + w)) = omega arith in
          let there : w - 1 - (w - 1 - i) ≡ i = omega arith in
          let low1 = bit-u64_shl_low (x >>> off) (off + w - 64) i p in
          let value = rw (here, there) at (second (w - 1 - i) (omega arith) (omega arith)) in
          omega (arith, joined, low1, low2, value)
      | no p ↦
          let low2' = bit_of_lt 64 sw (i + (128 - (off + w))) word (omega arith) in
          elim (dec_lt i 64) [
            | yes q ↦
                let k = i - (off + w - 64) in
                let high1 = bit-u64_shl (x >>> off) (off + w - 64) i q (omega arith) in
                let moved = bit-shr off x k in
                elim (dec_lt i w) [
                  | yes r ↦
                      let here : 63 - (off + (w - 1 - i)) ≡ k = omega arith in
                      let there : w - 1 - (w - 1 - i) ≡ i = omega arith in
                      let back : k + off - off ≡ k = omega arith in
                      let taken = bit-u64_shl fw off (k + off) (omega arith) (omega arith) in
                      let value = rw (here, there) at (first (w - 1 - i) (omega arith)) in
                      let taken' : bit x (k + off) ≡ bit fw k = rw back at taken in
                      omega (arith, joined, low2, low2', high1, moved, taken', value)
                  | no r ↦
                      let above = bit_of_lt 64 x (k + off) (omega arith) (omega arith) in
                      let none_left = bit_of_lt w v i small (omega arith) in
                      omega (arith, joined, low2, low2', high1, moved, above, none_left)
                ]
            | no q ↦
                let above = bit_of_lt 64 part1 i (omega arith) (omega arith) in
                let none_left = bit_of_lt w v i small (omega arith) in
                omega (arith, joined, low2, low2', above, none_left)
          ]
    ]

-- The array holds the values `vs`, each in `width` bits of the stream of the words `ws`, from
-- element `first` on.
pub record Represents (la : LogArray) (ws vs : List ℕ) : Type 0 where
  pub tail : List ℕ
  pub buf : la.input_buf ≡ be_words ws ++ tail
  pub words : All IsWord ws
  pub width_pos : 0 < la.width
  pub width_le : la.width ≤ 64
  pub len : la.len ≡ length vs
  pub room : la.width * (la.first + la.len) ≤ 64 * length ws
  pub small : (i : ℕ) → i < la.len → get_or vs i 0 < 2 ^ la.width
  pub bits :
      (i j : ℕ)
      → i < la.len
      → j < la.width
      → stream_bit ws (la.width * (la.first + i) + j) ≡ bit (get_or vs i 0) (la.width - 1 - j)

module _ (io : Buffers) {la : LogArray} {ws vs : List ℕ} (rep : Represents la ws vs) where
  -- On an array that holds the values `vs`, `entry` answers for every index below the length the
  -- value there, whether it lies in one word or across two.
  pub entry-Represents : (index : ℕ) → index < la.len → entry io la index ≡ done (get_or vs index 0)
  unfolding entry
  entry-Represents index h =
      let b = la.width * (la.first + index) in
      let q = b / 64 in
      let off = b % 64 in
      let w = la.width in
      let v = get_or vs index 0 in
      let fits : b + w ≤ 64 * length ws = grind (arith, rep.room) in
      let asserted : ltb index la.len ≡ true = ground arith in
      let place : (b >>> 6) <<< 3 ≡ 8 * q = omega arith in
      let offset : bit_and b 0x3f ≡ off = bit_and-0x3f b in
      let (within, first_word) =
        read_u64-be_words io la.input_buf ws rep.tail q rep.buf rep.words (omega arith) in
      elim (Bool-cases (leb (off + w) 64)) [
        | inl one ↦
            let shifts : ltb off 64 ≡ true = ground arith in
            let width_fits : ltb 64 w ≡ false = ground (arith, rep.width_le) in
            let back : ltb (64 - w) 64 ≡ true = ground (arith, rep.width_pos) in
            let fits_word : off + w ≤ 64 = ground arith in
            rw (asserted, place, within, first_word, offset, one, width_fits, shifts, back)
              (ap done (
                bit_ext_all _ v (
                  one_word_bit (get_or ws q 0) off w v fits_word (rep.small index h) λ j p.
                    sym (stream_bit_at ws (b + j) q (off + j) (omega arith) (omega arith))
                    ∙ rep.bits index j h p)))
        | inr two ↦
            let two_words : 64 < off + w = ground arith in
            let shifts : ltb off 64 ≡ true = ground arith in
            let width_fits : ltb 64 w ≡ false = ground (arith, rep.width_le) in
            let offset_fits : ltb 64 off ≡ false = ground arith in
            let borrow : ltb w (64 - off) ≡ false = ground arith in
            let second_width : w - (64 - off) ≡ off + w - 64 = ground (arith, rep.width_le) in
            let shifts2 : ltb (off + w - 64) 64 ≡ true = ground (arith, rep.width_le) in
            let borrow2 : ltb 64 (off + w - 64) ≡ false = ground (arith, rep.width_le) in
            let distance : 64 - (off + w - 64) ≡ 128 - (off + w) = ground arith in
            let shifts3 : ltb (128 - (off + w)) 64 ≡ true = ground arith in
            let place2 : 8 * q + 8 ≡ 8 * (q + 1) = omega arith in
            let (within2, second_word) =
              read_u64-be_words io la.input_buf ws rep.tail (q + 1) rep.buf rep.words
                (omega arith) in
            rw
              (
                asserted, place, within, first_word, offset, two, width_fits, place2, within2,
                second_word, offset_fits, borrow, second_width, shifts, shifts2, borrow2, distance,
                shifts3,
              )
              (ap done (
                bit_ext_all _ v (
                  two_words_bit (get_or ws q 0) (get_or ws (q + 1) 0) off w v (omega arith)
                    rep.width_le two_words (rep.small index h) (get_or-IsWord ws (q + 1) rep.words)
                    (λ j p.
                      sym (stream_bit_at ws (b + j) q (off + j) (omega arith) p)
                      ∙ rep.bits index j h (omega (arith, rep.width_le)))
                    (λ j lo hi.
                      let back : 63 - (off + j - 64) ≡ 127 - (off + j) = omega arith in
                      rw back at (
                        sym (
                          stream_bit_at ws (b + j) (q + 1) (off + j - 64) (omega arith)
                            (omega (arith, rep.width_le))))
                      ∙ rep.bits index j h hi))))
      ]
