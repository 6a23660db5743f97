-- ===== src/VByte.antt =====
-- vbyte.rs: the variable-byte encoding of a `u64`. Seven bits to a byte, lowest first; the top bit
-- marks the last byte.
pub mod Encode
pub mod Decode
pub mod Sync
use tdb_succinct_wasm.Base.{
  ℕ, zero, suc, ◌+◌, ◌-◌, ◌/◌, ◌%◌, bit_and, bit_or, ◌≡◌, Bool, true, false, ◌&&◌, Option, none,
  some, List, [], ◌∷◌, ltb, leb, ◌==◌, if◌then◌else◌, length, set, replicate, Run, done, panic,
  ◌>>=◌, Result, ok, err,
}
use tdb_succinct_wasm.Bits.Shift.{◌<<<◌, ◌>>>◌, u64}
use tdb_succinct_wasm.Bits.Count.{leading_zeros}

abbrev pub max_encoding_len : ℕ
max_encoding_len = 10

-- `encoding_len`.
pub encoding_len : ℕ → ℕ
encoding_len num = if num == 0 then 1 else (64 + 6 - leading_zeros num) / 7

-- `DecodeError`.
pub data DecodeError : Type 0 where
  encoded_value_too_large unexpected_end_of_buffer unexpected_encoding_len : DecodeError

pub is_last_encoded_byte : ℕ → Bool
is_last_encoded_byte byte = leb 0x80 byte

pub clear_msb : ℕ → ℕ
clear_msb byte = bit_and byte 0x7f

pub set_msb : ℕ → ℕ
set_msb byte = bit_or byte 0x80

pub max_byte_too_large : ℕ → ℕ → Bool
max_byte_too_large shift byte = shift == 63 && ltb 0x81 byte

-- What the decoders need of `bytes::Buf`, a crate that the program does not hold: whether bytes
-- are left, and taking the first one. `contents` is the view of what is left, by which the laws
-- say what the crate documents.
pub record Buf : Type 1 where
  pub B : Type 0
  pub has_remaining : B → Bool
  pub get_u8 : B → Run (ℕ × B)
  pub contents : B → List ℕ
  pub empty_lem : (b : B) → contents b ≡ [] → has_remaining b ≡ false
  pub remaining_lem : (b : B) (x : ℕ) (xs : List ℕ) → contents b ≡ x ∷ xs → has_remaining b ≡ true
  pub get_u8_lem :
      (b : B) (x : ℕ) (xs : List ℕ)
      → contents b ≡ x ∷ xs
      → (rest : B) × (get_u8 b ≡ done (x, rest)) × (contents rest ≡ xs)

-- What a decoder answers: the number, the count of bytes taken, and the buffer behind them.
abbrev pub Decoded : Type 0 → Type 0
Decoded B = Result DecodeError (ℕ × ℕ × B)

module _ (buf : Buf) where
  open buf use {B, has_remaining, get_u8}

  -- The loop of `decode_buf`. The shift grows by 7 and the loop ends past 64, so 10 rounds are
  -- enough; `panic` at no fuel stands for a loop that goes on.
  pub decode_loop : ℕ → B → ℕ → ℕ → ℕ → Run (Decoded B)
  unfolding is_last_encoded_byte max_byte_too_large clear_msb
  decode_loop zero b num shift count = panic
  decode_loop (suc fuel) b num shift count =
      if has_remaining b
      then (get_u8 b >>= λ (x, rest).
          let again =
            decode_loop fuel rest (bit_or num (u64 (x <<< shift))) (shift + 7) (count + 1) in
          if is_last_encoded_byte x
          then if max_byte_too_large shift x
            then done (err encoded_value_too_large)
            else done (ok (bit_or num (u64 (clear_msb x <<< shift)), count + 1, rest))
          else if ltb 64 (shift + 7)
          then done (err unexpected_encoding_len)
          else again)
      else done (err unexpected_end_of_buffer)

  pub decode_buf : B → Run (Decoded B)
  unfolding decode_loop
  decode_buf b = decode_loop 10 b 0 0 0

pub more_than_7bits_remain : ℕ → Bool
more_than_7bits_remain num = leb 0x80 num

-- A write through `get_unchecked_mut`: undefined past the end, which `panic` stands for.
pub write_byte : List ℕ → ℕ → ℕ → Run (List ℕ)
write_byte buf i v = if ltb i (length buf) then done (set buf i v) else panic

-- The loop of `encode_unchecked`: each round shifts 7 bits out, so 10 rounds are enough.
pub encode_loop : ℕ → List ℕ → ℕ → ℕ → Run (List ℕ × ℕ)
unfolding more_than_7bits_remain clear_msb set_msb write_byte
encode_loop zero buf num i = panic
encode_loop (suc fuel) buf num i =
    let again =
      (write_byte buf i (clear_msb (num % 256)) >>= λ buf'.
      encode_loop fuel buf' (num >>> 7) (i + 1)) in
    let last = (write_byte buf i (set_msb (num % 256)) >>= λ buf'. done (buf', i + 1)) in
    if more_than_7bits_remain num then again else last

pub encode_unchecked : List ℕ → ℕ → Run (List ℕ × ℕ)
unfolding encode_loop
encode_unchecked buf num = encode_loop 10 buf num 0

-- The slice behind the call, with the count of bytes written, if the encoding fits it.
pub encode_slice : List ℕ → ℕ → Run (Option (List ℕ × ℕ))
unfolding encode_unchecked encoding_len
encode_slice buf num =
    if ltb (length buf) (encoding_len num)
    then done none
    else (encode_unchecked buf num >>= λ r. done (some r))

pub encode_vec : ℕ → Run (List ℕ)
unfolding encode_unchecked encoding_len
encode_vec num = encode_unchecked (replicate (encoding_len num) 0) num >>= λ (vec, size). done vec

pub encode_array : ℕ → Run (List ℕ × ℕ)
unfolding encode_unchecked
encode_array num = encode_unchecked (replicate 10 0) num
