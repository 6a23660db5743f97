-- ===== src/BitArray/Builder/Push.antt =====
-- The builder of bit arrays: each `push` adds one bit to the stream.
use native.Mathlib.Decide.{dec_lt, ℕ_discrete}
use native.Mathlib.Nat.{div-le_self}
use mathlib.Core.List.{append_assoc, append-nil}
use tdb_succinct_wasm.Base.{
  ℕ, zero, suc, ◌+◌, ◌-◌, ◌*◌, ◌%◌, ◌^◌, ◌≤◌, ◌<◌, bit_and, bit_or, ◌≡◌, ◌≢◌, refl, sym, ap, ◌∙◌,
  Bool, true, false, inl, inr, List, [], ◌∷◌, ◌++◌, length, length-append, get_or, ◌==◌,
  if◌then◌else◌, All, All-snoc, Bool-cases, arith,
}
use tdb_succinct_wasm.Bits.Digit.{bit, bit-bit_or, bit_of_zero}
use tdb_succinct_wasm.Bits.Shift.{◌>>>◌, bit-shr}
use tdb_succinct_wasm.Bits.Ext.{bit_or-lt}
use tdb_succinct_wasm.Bits.Mask.{bit_and-0x3f}
use tdb_succinct_wasm.Words.{Buffers, to_be_bytes}
use tdb_succinct_wasm.Words.Bytes.{bit_of_pow_self, bit_of_pow_ne}
use tdb_succinct_wasm.Words.Stream.{
  IsWord, stream_bit, be_words, be_words-snoc, stream_bit-append_left, stream_bit-append_last,
}
use tdb_succinct_wasm.BitArray.Get.{digit}
use tdb_succinct_wasm.BitArray.Builder.{Builder, new, joined, push, push_all}

-- The top digit of a word, moved `p` places down.
top_digit : (p k : ℕ) → p < 64 → k + p ≡ 63 → bit (0x8000_0000_0000_0000 >>> p) k ≡ 1
top_digit p k h e = bit-shr p 0x8000_0000_0000_0000 k ∙ rw e (bit_of_pow_self 63)

top_digit_ne : (p k : ℕ) → k + p ≢ 63 → bit (0x8000_0000_0000_0000 >>> p) k ≡ 0
top_digit_ne p k ne = bit-shr p 0x8000_0000_0000_0000 k ∙ bit_of_pow_ne 63 (k + p) ne

-- A stream holds the bits `bs` from its start.
abbrev pub HoldsBits : (ℕ → ℕ) → List Bool → Type 0
HoldsBits s bs = (i : ℕ) → i < length bs → s i ≡ digit (get_or bs i false)

get_or-snoc :
    (bs : List Bool) (b : Bool) (i : ℕ)
    → i < length bs
    → get_or (bs ++ (b ∷ [])) i false ≡ get_or bs i false
get_or-snoc [] b i h = absurd (omega arith)
get_or-snoc (x ∷ bs) b zero h = refl
get_or-snoc (x ∷ bs) b (suc i) h = get_or-snoc bs b i (omega arith)

get_or-snoc_last : (bs : List Bool) (b : Bool) → get_or (bs ++ (b ∷ [])) (length bs) false ≡ b
get_or-snoc_last [] b = refl
get_or-snoc_last (x ∷ bs) b = get_or-snoc_last bs b

HoldsBits-snoc :
    (s s' : ℕ → ℕ) (bs : List Bool) (b : Bool)
    → ((k : ℕ) → k < length bs → s' k ≡ s k)
    → s' (length bs) ≡ digit b
    → HoldsBits s bs
    → HoldsBits s' (bs ++ (b ∷ []))
HoldsBits-snoc s s' bs b old new holds i h =
    let size = length-append bs (b ∷ []) in
    elim (dec_lt i (length bs)) [
      | yes p ↦ old i p ∙ holds i p ∙ ap digit (sym (get_or-snoc bs b i p))
      | no p ↦
          let last : i ≡ length bs = omega arith in
          ap s' last
          ∙ new
          ∙ ap digit (sym (ap (λ t. get_or (bs ++ (b ∷ [])) t false) last ∙ get_or-snoc_last bs b))
    ]

-- The state of a builder that started behind `front` and took the bits `bs`.
pub record Encodes (front : List ℕ) (b : Builder) (bs : List Bool) : Type 0 where
  pub words : List ℕ
  pub dest : b.dest ≡ front ++ be_words words
  pub all_words : All IsWord words
  pub current_word : IsWord b.current
  pub count : b.count ≡ length bs
  pub low : 64 * length words ≤ length bs
  pub high : length bs < 64 * length words + 64
  pub clear : (k : ℕ) → k < 64 - length bs % 64 → bit b.current k ≡ 0
  pub holds : HoldsBits (stream_bit (words ++ (b.current ∷ []))) bs

pub new-Encodes : (front : List ℕ) → Encodes front (new front) []
unfolding new
new-Encodes front = record {
  words = [];
  dest = unfold be_words in sym (append-nil front);
  all_words = tt;
  current_word = omega arith;
  count = refl;
  low = omega arith;
  high = omega arith;
  clear = λ k h. bit_of_zero k;
  holds = λ i h. absurd (omega arith);
}

-- The digits of the word that takes the next bit.
joined_digit :
    (cur n k : ℕ) (b : Bool)
    → n < 64
    → ((k : ℕ) → k < 64 - n → bit cur k ≡ 0)
    → bit (if b then bit_or cur (0x8000_0000_0000_0000 >>> n) else cur) k
      ≡ (if k + n == 63 then digit b else bit cur k)
joined_digit cur n k false h clear = elim (ℕ_discrete (k + n) 63) [
  | yes e ↦ let here : (k + n == 63) ≡ true = ground arith in rw here (clear k (omega arith))
  | no e ↦ let other : (k + n == 63) ≡ false = ground arith in rw other
]
joined_digit cur n k true h clear = elim (ℕ_discrete (k + n) 63) [
  | yes e ↦
      let here : (k + n == 63) ≡ true = ground arith in
      rw here (
        omega (
          arith,
          bit-bit_or cur (0x8000_0000_0000_0000 >>> n) k,
          clear k (omega arith),
          top_digit n k h e,
        ))
  | no e ↦
      let other : (k + n == 63) ≡ false = ground arith in
      rw other (omega (arith, bit-bit_or cur (0x8000_0000_0000_0000 >>> n) k, top_digit_ne n k e))
]

module _ (io : Buffers) {front : List ℕ} {b : Builder} {bs : List Bool} (enc : Encodes front b bs)
    (next : Bool) where
  word : ℕ
  word = joined b next

  word-digit :
      (k : ℕ) → bit word k ≡ (if k + length bs % 64 == 63 then digit next else bit b.current k)
  unfolding word
  word-digit k =
      let place : bit_and b.count 0x3f ≡ length bs % 64 =
        bit_and-0x3f b.count ∙ ap (λ t. t % 64) enc.count in
      rw place (joined_digit b.current (length bs % 64) k next (omega arith) enc.clear)

  word-IsWord : IsWord word
  unfolding word
  word-IsWord = joined_word next
    where
      joined_word : (t : Bool) → IsWord (joined b t)
      joined_word true =
          bit_or-lt 64 b.current _ enc.current_word
            (omega (arith, div-le_self 0x8000_0000_0000_0000 (2 ^ bit_and b.count 0x3f)))
      joined_word false = enc.current_word

  old_bits :
      (k : ℕ)
      → k < length bs
      → stream_bit (enc.words ++ (word ∷ [])) k ≡ stream_bit (enc.words ++ (b.current ∷ [])) k
  old_bits k h = elim (dec_lt k (64 * length enc.words)) [
    | yes p ↦
        stream_bit-append_left enc.words word k p
        ∙ sym (stream_bit-append_left enc.words b.current k p)
    | no p ↦
        let place = 63 - (k - 64 * length enc.words) in
        let other : (place + length bs % 64 == 63) ≡ false = ground (arith, enc.low, enc.high) in
        stream_bit-append_last enc.words word k (omega arith) (omega (arith, enc.high))
        ∙ word-digit place
        ∙ rw other (
            sym (
              stream_bit-append_last enc.words b.current k (omega arith) (omega (arith, enc.high))))
  ]

  new_bit : stream_bit (enc.words ++ (word ∷ [])) (length bs) ≡ digit next
  new_bit =
      let place = 63 - (length bs - 64 * length enc.words) in
      let here : (place + length bs % 64 == 63) ≡ true = ground (arith, enc.low, enc.high) in
      stream_bit-append_last enc.words word (length bs) enc.low enc.high
      ∙ word-digit place
      ∙ rw here

  pub push-Encodes : Encodes front (push io b next) (bs ++ (next ∷ []))
  unfolding push word
  push-Encodes =
      let size = length-append bs (next ∷ []) in
      let mask = bit_and-0x3f (b.count + 1) in
      elim (Bool-cases (bit_and (b.count + 1) 0x3f == 0)) [
        | inl full ↦
            let aligned : (length bs + 1) % 64 ≡ 0 = ground (arith, enc.count) in
            rw full (record {
              words = enc.words ++ (word ∷ []);
              dest =
                  io.put_u64_lem b.dest word word-IsWord
                  ∙ ap (λ t. t ++ to_be_bytes 8 word) enc.dest
                  ∙ append_assoc front (be_words enc.words) (to_be_bytes 8 word)
                  ∙ ap (λ t. front ++ t) (sym (be_words-snoc enc.words word));
              all_words = All-snoc IsWord enc.words word enc.all_words word-IsWord;
              current_word = omega arith;
              count = omega (arith, enc.count);
              low = omega (arith, enc.low, enc.high, length-append enc.words (word ∷ []));
              high = omega (arith, enc.low, enc.high, length-append enc.words (word ∷ []));
              clear = λ k h. bit_of_zero k;
              holds =
                  HoldsBits-snoc _ _ bs next
                    (λ k h.
                      stream_bit-append_left (enc.words ++ (word ∷ [])) 0 k
                        (omega (arith, enc.high, length-append enc.words (word ∷ [])))
                      ∙ old_bits k h)
                    (stream_bit-append_left (enc.words ++ (word ∷ [])) 0 (length bs)
                        (omega (arith, enc.high, length-append enc.words (word ∷ [])))
                      ∙ new_bit)
                    enc.holds;
            })
        | inr partly ↦
            let inside : (length bs + 1) % 64 ≢ 0 = λ e. ground (arith, enc.count) in
            rw partly (record {
              words = enc.words;
              dest = enc.dest;
              all_words = enc.all_words;
              current_word = word-IsWord;
              count = omega (arith, enc.count);
              low = omega (arith, enc.low);
              high = omega (arith, enc.low, enc.high);
              clear = λ k h.
                  let other : (k + length bs % 64 == 63) ≡ false = ground arith in
                  word-digit k ∙ rw other (enc.clear k (omega arith));
              holds = HoldsBits-snoc _ _ bs next old_bits new_bit enc.holds;
            })
      ]

pub push_all-Encodes :
    (io : Buffers) (more : List Bool) {front : List ℕ} {b : Builder} {bs : List Bool}
    → Encodes front b bs
    → Encodes front (push_all io b more) (bs ++ more)
unfolding push_all
push_all-Encodes io [] {bs} enc = rw (append-nil bs) enc
push_all-Encodes io (next ∷ more) {b} {bs} enc =
    rw (append_assoc bs (next ∷ []) more) at (push_all-Encodes io more (push-Encodes io enc next))
