-- ===== src/BitArray/Builder/RoundTrip.antt =====
-- What the builder finishes, `from_bits` opens again.
use mathlib.Core.List.{append-nil}
use tdb_succinct_wasm.Base.{
  ℕ, ◌+◌, ◌-◌, ◌*◌, ◌/◌, ◌%◌, ◌^◌, ◌<◌, bit_and, ◌≡◌, refl, sym, ap, ◌∙◌, Bool, true, false, inl,
  inr, List, [], ◌∷◌, ◌++◌, length, length-append, get_or, take-append_left, drop-append_left, ltb,
  ◌==◌, All, All-snoc, done, ok, Bool-cases, arith,
}
use tdb_succinct_wasm.Bits.Mask.{bit_and-0x3f}
use tdb_succinct_wasm.Words.{Buffers, to_be_bytes}
use tdb_succinct_wasm.Words.Stream.{
  IsWord, stream_bit, be_words, be_words-snoc, length-be_words, stream_bit-append_left,
}
use tdb_succinct_wasm.BitArray.{BitArray, expected_buf_size, from_bits, get, iter}
use tdb_succinct_wasm.BitArray.Get.{Represents, get-Represents, iter-Represents}
use tdb_succinct_wasm.BitArray.Builder.{Builder, new, push_all, finalize_data, finalize}
use tdb_succinct_wasm.BitArray.Builder.Push.{Encodes, HoldsBits, new-Encodes, push_all-Encodes}

-- The words of the finished data: as many as the bits need, with the bits in their stream.
pub record Data (buf : List ℕ) (bs : List Bool) : Type 0 where
  pub words : List ℕ
  pub bytes : buf ≡ be_words words
  pub all_words : All IsWord words
  pub size : length words ≡ (length bs + 63) / 64
  pub holds : HoldsBits (stream_bit words) bs

finalize_data-Data :
    (io : Buffers) {b : Builder} {bs : List Bool}
    → Encodes [] b bs
    → Data (finalize_data io b).dest bs
unfolding finalize_data
finalize_data-Data io {b} {bs} enc =
    let mask : bit_and b.count 0x3f ≡ length bs % 64 =
      bit_and-0x3f b.count ∙ ap (λ t. t % 64) enc.count in
    elim (Bool-cases (bit_and b.count 0x3f == 0)) [
      | inl even ↦
          let aligned : length bs % 64 ≡ 0 = ground arith in
          rw even (record {
            words = enc.words;
            bytes = enc.dest;
            all_words = enc.all_words;
            size = omega (arith, enc.low, enc.high);
            holds = λ i h.
                sym
                  (stream_bit-append_left enc.words b.current i (omega (arith, enc.low, enc.high)))
                ∙ enc.holds i h;
          })
      | inr odd ↦
          let partly : 0 < length bs % 64 = ground arith in
          rw odd (record {
            words = enc.words ++ (b.current ∷ []);
            bytes =
                io.put_u64_lem b.dest b.current enc.current_word
                ∙ ap (λ t. t ++ to_be_bytes 8 b.current) enc.dest
                ∙ sym (be_words-snoc enc.words b.current);
            all_words = All-snoc IsWord enc.words b.current enc.all_words enc.current_word;
            size = omega (arith, enc.low, enc.high, length-append enc.words (b.current ∷ []));
            holds = enc.holds;
          })
    ]

finalize_data-count : (io : Buffers) (b : Builder) → (finalize_data io b).count ≡ b.count
unfolding finalize_data
finalize_data-count io b = ground arith

-- The finished bytes: the data, and the count of the bits.
pub finalize-Encodes :
    (io : Buffers) {b : Builder} {bs : List Bool}
    → Encodes [] b bs
    → length bs < 2 ^ 64
    → (bytes : List ℕ) × (finalize io b ≡ bytes ++ to_be_bytes 8 (length bs)) × Data bytes bs
unfolding finalize
finalize-Encodes io {b} {bs} enc short =
    let count : (finalize_data io b).count ≡ length bs = finalize_data-count io b ∙ enc.count in
    (
      (finalize_data io b).dest,
      ap (io.put_u64 (finalize_data io b).dest) enc.count
          ∙ io.put_u64_lem (finalize_data io b).dest (length bs) short,
      finalize_data-Data io enc,
    )

module _ (io : Buffers) {bytes : List ℕ} {bs : List Bool} (d : Data bytes bs)
    (short : length bs < 2 ^ 64) where
  abbrev pub opened : BitArray
  opened = record { len = length bs; buf = bytes }

  pub from_bits-Data : from_bits io (bytes ++ to_be_bytes 8 (length bs)) ≡ done (ok opened)
  unfolding from_bits
  from_bits-Data =
      let tail = to_be_bytes 8 (length bs) in
      let buf = bytes ++ tail in
      let eight : length tail ≡ 8 = unfold to_be_bytes in refl in
      let whole : length buf ≡ length bytes + 8 = omega (arith, eight, length-append bytes tail) in
      let size : length bytes ≡ 8 * length d.words = ap length d.bytes ∙ length-be_words d.words in
      let big : ltb (length buf) 8 ≡ false = ground arith in
      let start : length buf - 8 ≡ length bytes = omega arith in
      let split : io.split_off buf (length buf - 8) ≡ done (bytes, tail) = rw start (
        io.split_off_lem buf (length bytes) (omega arith)
        ∙ rw (take-append_left bytes tail, drop-append_left bytes tail)) in
      let word : io.read_u64 tail ≡ done (length bs) =
        rw (append-nil tail) at (io.read_u64_lem (length bs) [] short) in
      let mask = bit_and-0x3f (length bs) in
      let exact : (length buf == expected_buf_size (length bs)) ≡ true = ground (arith, d.size) in
      rw (big, split, word, exact) refl

  pub opened-Represents : Represents opened d.words bs
  opened-Represents = record {
    tail = [];
    buf = d.bytes ∙ sym (append-nil (be_words d.words));
    words = d.all_words;
    len = refl;
    room = omega (arith, d.size);
    holds = d.holds;
  }

-- Fewer than 2 ^ 64 bits that are pushed into an empty builder are read back: `from_bits` accepts
-- the finished bytes, its array has the count of the bits for a length, `get` answers each of them
-- and `iter` hands them all out in order.
pub from_bits-finalize :
    (io : Buffers) (bs : List Bool)
    → length bs < 2 ^ 64
    → (a : BitArray) × (from_bits io (finalize io (push_all io (new []) bs)) ≡ done (ok a))
      × (a.len ≡ length bs)
      × ((i : ℕ) → i < length bs → get a i ≡ done (get_or bs i false))
      × (iter a ≡ done bs)
from_bits-finalize io bs short =
    let (bytes, written, d) = finalize-Encodes io (push_all-Encodes io bs (new-Encodes [])) short in
    let rep = opened-Represents io d short in
    (
      opened io d short,
      rw written (from_bits-Data io d short),
      refl,
      λ i h. get-Represents rep i h,
      iter-Represents rep,
    )
