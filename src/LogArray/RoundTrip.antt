-- ===== src/LogArray/RoundTrip.antt =====
-- What a builder finishes, `parse` and `parse_header_first` open again, with every element in its
-- place.
use tdb_succinct_wasm.Base.{
  ℕ, zero, suc, ◌+◌, ◌-◌, ◌*◌, ◌/◌, ◌%◌, ◌^◌, ◌≤◌, ◌<◌, bit_and, ◌≡◌, refl, ap, ◌∙◌, true, false,
  List, [], ◌∷◌, ◌++◌, length, length-append, get_or, drop, take-append_left, drop-append_left,
  if◌then◌else◌, ltb, ◌==◌, All, done, ◌>>=◌, ok, arith,
}
use tdb_succinct_wasm.Bits.Mask.{bit_and-0xffffff}
use tdb_succinct_wasm.Words.{Buffers, to_be_bytes}
use tdb_succinct_wasm.Words.Stream.{stream_bit, length-be_words}
use tdb_succinct_wasm.LogArray.{
  LogArray, parse_control_word, parse, parse_header_first, logarray_length_from_len_width, entry,
}
use tdb_succinct_wasm.LogArray.Builder
use tdb_succinct_wasm.LogArray.Builder.Finalize.{Data, header, push_vec-new, finalize_lem}
use tdb_succinct_wasm.LogArray.Entry.{Represents, entry-Represents}

-- A length below 2 ^ 56 and a width below 256 are read back from the eight bytes of their control
-- word.
pub parse_control_word-header :
    (io : Buffers) (len w : ℕ)
    → len < 2 ^ 56
    → w < 256
    → parse_control_word io (header len w) ≡ done (len, w)
unfolding parse_control_word to_be_bytes
parse_control_word-header io len w h k =
    let first =
      io.read_u32_lem (len % 2 ^ 32) (to_be_bytes 4 (w * 2 ^ 24 + len / 2 ^ 32)) (omega arith) in
    let second = io.read_u32_lem (w * 2 ^ 24 + len / 2 ^ 32) [] (omega arith) in
    let width : (w * 2 ^ 24 + len / 2 ^ 32) / 16777216 % 256 ≡ w = omega arith in
    let low : bit_and (w * 2 ^ 24 + len / 2 ^ 32) 0xffffff ≡ len / 2 ^ 32 =
      bit_and-0xffffff (w * 2 ^ 24 + len / 2 ^ 32) ∙ omega arith in
    let e : len / 2 ^ 32 * 2 ^ 32 + len % 2 ^ 32 ≡ len = omega arith in
    rw (first, second, low, width) (ap (λ t. done (t, w)) e)

All-get_or :
    (w : ℕ) (vs : List ℕ) (i : ℕ) → All (λ v. v < 2 ^ w) vs → i < length vs → get_or vs i 0 < 2 ^ w
All-get_or w [] i h p = absurd (omega arith)
All-get_or w (v ∷ vs) zero h p = h.0
All-get_or w (v ∷ vs) (suc i) h p = All-get_or w vs i h.1 (omega arith)

-- The finished data, with any bytes behind it, as an array.
abbrev pub array_of : List ℕ → ℕ → ℕ → LogArray
array_of buf len w = record { first = 0; len = len; width = w; input_buf = buf }

pub Data-Represents :
    {bytes : List ℕ} {w : ℕ} {vs : List ℕ} (tail : List ℕ) (d : Data [] bytes w vs)
    → 0 < w
    → w ≤ 64
    → All (λ v. v < 2 ^ w) vs
    → Represents (array_of (bytes ++ tail) (length vs) w) d.words vs
Data-Represents {w} {vs} tail d lo hi small = record {
  tail = tail;
  buf = ap (λ t. t ++ tail) d.bytes;
  words = d.all_words;
  width_pos = lo;
  width_le = hi;
  len = refl;
  room = omega (arith, d.enough);
  small = λ i h. All-get_or w vs i small h;
  bits = λ i j h k.
      let e : w * (0 + i) + j ≡ w * i + j = omega arith in
      ap (stream_bit d.words) e ∙ d.holds i j h k;
}

module _ (io : Buffers) (w : ℕ) (vs : List ℕ) (lo : 0 < w) (hi : w ≤ 64)
    (small : All (λ v. v < 2 ^ w) vs) (short : length vs < 2 ^ 56) where
  -- The parse of the data and the control word.
  pub parse-Data :
      {bytes : List ℕ}
      → Data [] bytes w vs
      → parse io (bytes ++ header (length vs) w)
        ≡ done (ok (array_of (bytes ++ header (length vs) w) (length vs) w))
  unfolding parse to_be_bytes
  parse-Data {bytes} d =
      let buf = bytes ++ header (length vs) w in
      let size : length bytes ≡ 8 * length d.words = ap length d.bytes ∙ length-be_words d.words in
      let whole : length buf ≡ length bytes + 8 = length-append bytes (header (length vs) w) in
      let big : ltb (length buf) 8 ≡ false = ground arith in
      let inside : ltb (length buf) (length buf - 8) ≡ false = ground arith in
      let start : length buf - 8 ≡ length bytes = omega arith in
      let word : drop (length buf - 8) buf ≡ header (length vs) w =
        rw start (drop-append_left bytes (header (length vs) w)) in
      let narrow : ltb 64 w ≡ false = ground arith in
      let exact : (length buf == (length vs * w + 127) / 2 ^ 6 * 2 ^ 3) ≡ true =
        ground (arith, d.enough, d.no_more) in
      rw
        (
          big,
          inside,
          word,
          parse_control_word-header io (length vs) w short (omega arith),
          narrow,
          exact,
        )
        refl

  -- The parse of a control word with the data behind it, and any bytes behind that.
  pub parse_header_first-Data :
      (rest : List ℕ) {bytes : List ℕ}
      → Data [] bytes w vs
      → parse_header_first io (header (length vs) w ++ (bytes ++ rest))
        ≡ done (ok (array_of bytes (length vs) w, rest))
  unfolding parse_header_first logarray_length_from_len_width to_be_bytes
  parse_header_first-Data rest {bytes} d =
      let front = header (length vs) w in
      let buf = front ++ (bytes ++ rest) in
      let size : length bytes ≡ 8 * length d.words = ap length d.bytes ∙ length-be_words d.words in
      let inner : length (bytes ++ rest) ≡ length bytes + length rest = length-append bytes rest in
      let big : ltb (length buf) 8 ≡ false = ground arith in
      let narrow : ltb 64 w ≡ false = ground arith in
      let enough : ltb (length buf) ((length vs * w + 127) / 2 ^ 6 * 2 ^ 3) ≡ false =
        ground (arith, d.enough, d.no_more) in
      let count : (w * length vs / 64 + (if w * length vs % 64 == 0 then 0 else 1)) * 8
          ≡ length bytes =
        ground (arith, d.enough, d.no_more) in
      let split = io.split_off_lem (bytes ++ rest) (length bytes) (omega arith) in
      rw
        (
          big,
          parse_control_word-header io (length vs) w short (omega arith),
          narrow,
          enough,
          io.advance_lem buf 8 (ground arith),
          count,
          split,
          take-append_left bytes rest,
          drop-append_left bytes rest,
        )
        refl

  -- Values below 2 ^ w, 1 to 64 bits each and fewer than 2 ^ 56 of them, that are pushed into an
  -- empty builder of width `w` are read back: pushing and finishing do not panic, `parse` accepts
  -- the bytes, and the array has the length, the width and at each index the value.
  pub parse-finalize :
      (buf : List ℕ) × (la : LogArray) × ((Builder.push_vec io (Builder.new [] w) vs
          >>= Builder.finalize io)
        ≡ done buf)
      × (parse io buf ≡ done (ok la))
      × (la.len ≡ length vs)
      × (la.width ≡ w)
      × ((i : ℕ) → i < length vs → entry io la i ≡ done (get_or vs i 0))
  parse-finalize =
      let (b, pushed, same, enc) = push_vec-new io [] w vs lo hi small in
      let (bytes, finished, d) = finalize_lem io enc short in
      let d' : Data [] bytes w vs = rw same at d in
      let tail = header (length vs) w in
      (
        bytes ++ tail,
        array_of (bytes ++ tail) (length vs) w,
        rw pushed (rw same at finished),
        parse-Data d',
        refl,
        refl,
        λ i h. entry-Represents io (Data-Represents tail d' lo hi small) i h,
      )
