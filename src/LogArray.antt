-- ===== src/LogArray.antt =====
-- logarray.rs, the reading half: control words, parsing, element access, slices, iteration.
-- `usize` has 64 bits, and a panic of a debug build is `panic`.
pub mod Builder
pub mod Late
pub mod RoundTrip
pub mod Entry
pub mod Finished
use tdb_succinct_wasm.Base.{
  ℕ, zero, suc, ◌+◌, ◌-◌, ◌*◌, ◌/◌, ◌%◌, ◌^◌, ◌≤◌, ◌<◌, bit_and, bit_or, ◌≡◌, Bool, true, false,
  Option, none, some, List, length, take, drop, get_elem?, ltb, leb, ◌==◌, if◌then◌else◌, Run, done,
  panic, ◌>>=◌, ◌>>◌, assert, checked_sub, Result, ok, err,
}
use tdb_succinct_wasm.Bits.Shift.{◌<<<◌, ◌>>>◌, u64}
use tdb_succinct_wasm.Words.{Buffers, shl, shr, slice_from, slice, byte_at}

pub record LogArray : Type 0 where
  pub first : ℕ
  pub len : ℕ
  pub width : ℕ
  pub input_buf : List ℕ

pub data LogArrayError : Type 0 where
  input_buffer_too_small : ℕ → LogArrayError
  width_too_large : ℕ → LogArrayError
  unexpected_input_buffer_size : ℕ → ℕ → ℕ → ℕ → LogArrayError

-- `LogArrayError::validate_input_buf_size`.
pub validate_input_buf_size : ℕ → Result LogArrayError (Unit {0})
validate_input_buf_size input_buf_size =
    if ltb input_buf_size 8 then err (input_buffer_too_small input_buf_size) else ok tt

-- The size that the control word asks for. The length has 56 bits and the width is at most 64
-- where this is computed, so the product fits a `u64`.
abbrev pub expected_buf_size : ℕ → ℕ → ℕ
expected_buf_size len width = ((len * width + 127) >>> 6) <<< 3

-- `LogArrayError::validate_len_and_width`.
pub validate_len_and_width : ℕ → ℕ → ℕ → Result LogArrayError (Unit {0})
validate_len_and_width input_buf_size len width =
    if ltb 64 width
    then err (width_too_large width)
    else if input_buf_size == expected_buf_size len width
    then ok tt
    else err (unexpected_input_buffer_size input_buf_size (expected_buf_size len width) len width)

-- `LogArrayError::validate_len_and_width_trailing`.
pub validate_len_and_width_trailing : ℕ → ℕ → ℕ → Result LogArrayError (Unit {0})
validate_len_and_width_trailing input_buf_size len width =
    if ltb 64 width
    then err (width_too_large width)
    else if ltb input_buf_size (expected_buf_size len width)
    then err (unexpected_input_buffer_size input_buf_size (expected_buf_size len width) len width)
    else ok tt

-- `?` on a `Result` inside a computation that may panic.
infixl 5 ◌>>?◌
abbrev pub ◌>>?◌ {ℓ κ} :
    {A : Type ℓ} {B : Type κ}
    → Result LogArrayError A
    → (A → Run (Result LogArrayError B))
    → Run (Result LogArrayError B)
ok a >>? f = f a
err e >>? f = done (err e)

-- `logarray_length_from_len_width`.
pub logarray_length_from_len_width : ℕ → ℕ → ℕ
logarray_length_from_len_width len width =
    let num_bits = width * len in
    let num_u64 = num_bits / 64 + (if num_bits % 64 == 0 then 0 else 1) in num_u64 * 8

module _ (io : Buffers) where
  -- The length and the width.
  pub parse_control_word : List ℕ → Run (ℕ × ℕ)
  parse_control_word buf = do
    len_1 ← io.read_u32 buf
    width ← byte_at buf 4
    rest ← slice_from buf 4
    word ← io.read_u32 rest
    let len_2 = bit_and word 0xffffff
    done ((len_2 <<< 32) + len_1, width)

  pub read_control_word : List ℕ → ℕ → Run (Result LogArrayError (ℕ × ℕ))
  unfolding parse_control_word validate_len_and_width
  read_control_word buf input_buf_size = do
    (len, width) ← parse_control_word buf
    validate_len_and_width input_buf_size len width >>? λ _. done (ok (len, width))

  pub read_control_word_trailing : List ℕ → ℕ → Run (Result LogArrayError (ℕ × ℕ))
  unfolding parse_control_word validate_len_and_width_trailing
  read_control_word_trailing buf input_buf_size = do
    (len, width) ← parse_control_word buf
    validate_len_and_width_trailing input_buf_size len width >>? λ _. done (ok (len, width))

  unfoldable pub logarray_length_from_control_word : List ℕ → Run ℕ
  unfolding parse_control_word logarray_length_from_len_width
  logarray_length_from_control_word buf = do
    (len, width) ← parse_control_word buf
    done (logarray_length_from_len_width len width)

  pub parse : List ℕ → Run (Result LogArrayError LogArray)
  unfolding read_control_word validate_input_buf_size
  parse input_buf =
      let input_buf_size = length input_buf in
      validate_input_buf_size input_buf_size >>? λ _. do
        word ← slice_from input_buf (input_buf_size - 8)
        header ← read_control_word word input_buf_size
        header >>? λ (len, width).
            done (ok (record { first = 0; len = len; width = width; input_buf = input_buf }))

  -- The array at the front of a buffer, and the bytes behind it.
  pub parse_header_first : List ℕ → Run (Result LogArrayError (LogArray × List ℕ))
  unfolding read_control_word_trailing validate_input_buf_size logarray_length_from_len_width
  parse_header_first input_buf =
      let input_buf_size = length input_buf in
      validate_input_buf_size input_buf_size >>? λ _. do
        word ← slice input_buf 0 8
        header ← read_control_word_trailing word input_buf_size
        header >>? λ (len, width). do
          body ← io.advance input_buf 8
          (kept, rest) ← io.split_off body (logarray_length_from_len_width len width)
          done (ok (record { first = 0; len = len; width = width; input_buf = kept }, rest))

  pub entry : LogArray → ℕ → Run ℕ
  entry la index = do
    assert (ltb index la.len)
    let bit_index = la.width * (la.first + index)
    let byte_index = (bit_index >>> 6) <<< 3
    buf ← slice_from la.input_buf byte_index
    first_word ← io.read_u64 buf
    leading_zeros ← checked_sub 64 la.width
    let offset = bit_and bit_index 0x3f
    if leb (offset + la.width) 64
        then (do left ← shl first_word offset; shr left leading_zeros)
        else do
          buf' ← slice_from la.input_buf (byte_index + 8)
          second_word ← io.read_u64 buf'
          first_width ← checked_sub 64 offset
          second_width ← checked_sub la.width first_width
          left ← shl first_word offset
          right ← shr left offset
          first_part ← shl right second_width
          distance ← checked_sub 64 second_width
          second_part ← shr second_word distance
          done (bit_or first_part second_part)

-- `slice`: the sum of offset and length must fit a `u64` and lie within the array.
unfoldable pub slice_array : LogArray → ℕ → ℕ → Run LogArray
slice_array la offset len = do
  assert (ltb (offset + len) (2 ^ 64))
  assert (leb (offset + len) la.len)
  done (record { first = la.first + offset; len = len; width = la.width; input_buf = la.input_buf })

pub record LogArrayIterator : Type 0 where
  pub logarray : LogArray
  pub pos : ℕ
  pub end : ℕ

unfoldable pub iter : LogArray → LogArrayIterator
iter la = record { logarray = la; pos = 0; end = la.len }

module _ (io : Buffers) where
  -- `next`, with the iterator behind the call.
  unfoldable pub next : LogArrayIterator → Run (Option ℕ × LogArrayIterator)
  unfolding entry
  next it = if it.pos == it.end then done (none, it) else do
    result ← entry io it.logarray it.pos
    done (some result, record it { pos = it.pos + 1 })
