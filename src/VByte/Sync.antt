-- ===== src/VByte/Sync.antt =====
-- vbyte.rs, over readers and writers: `decode_reader` and `write_sync`.
pub mod Reads
pub mod Writes
pub mod RoundTrip
use tdb_succinct_wasm.Base.{
  ℕ, zero, suc, ◌+◌, Bool, List, [], ◌∷◌, length, ltb, if◌then◌else◌, bit_or, Run, done, panic,
  ◌>>=◌, Result, ok, err,
}
use tdb_succinct_wasm.Bits.Shift.{◌<<<◌, u64}
use tdb_succinct_wasm.Words.{byte_at}
use tdb_succinct_wasm.Util.{Writer, and_then}
use tdb_succinct_wasm.VByte.{
  DecodeError, encoded_value_too_large, unexpected_end_of_buffer, unexpected_encoding_len,
  is_last_encoded_byte, max_byte_too_large, clear_msb, encode_vec,
}

-- `DecodeReaderError`, over the errors of a reader.
pub data DecodeReaderError (E : Type 0) : Type 0 where
  io : E → DecodeReaderError E
  decode_error : DecodeError → DecodeReaderError E

-- What `decode_reader` needs of `std::io::Read`: `read_exact` on a buffer of a length, which answers
-- the reader behind the call and the filled buffer or an error; and whether the kind of an error is
-- `UnexpectedEof`.
pub record Reader : Type 1 where
  pub R : Type 0
  pub Error : Type 0
  pub is_unexpected_eof : Error → Bool
  pub read_exact : R → ℕ → R × Result Error (List ℕ)

module _ (reader : Reader) where
  open reader use {R, Error, is_unexpected_eof, read_exact}

  -- `From<io::Error>`.
  unfoldable pub from_io : Error → DecodeReaderError Error
  from_io e = if is_unexpected_eof e then decode_error unexpected_end_of_buffer else io e

  -- The reader behind the call, with the number and the count of bytes taken or an error.
  abbrev pub Answer : Type 0
  Answer = R × Result (DecodeReaderError Error) (ℕ × ℕ)

  -- The loop of `decode_reader`: 10 rounds are enough, as for `decode_buf`; `panic` at no fuel stands
  -- for a loop that goes on.
  unfoldable pub reader_loop : ℕ → R → ℕ → ℕ → ℕ → Run Answer
  unfolding from_io is_last_encoded_byte max_byte_too_large clear_msb
  reader_loop zero r num shift count = panic
  reader_loop (suc fuel) r num shift count =
      let (r', read) = read_exact r 1 in
      elim read [
        | err e ↦ done (r', err (from_io e))
        | ok byte_buf ↦ byte_at byte_buf 0 >>= λ x.
            let again =
              reader_loop fuel r' (bit_or num (u64 (x <<< shift))) (shift + 7) (count + 1) in
            if is_last_encoded_byte x
            then if max_byte_too_large shift x
              then done (r', err (decode_error encoded_value_too_large))
              else done (r', ok (bit_or num (u64 (clear_msb x <<< shift)), count + 1))
            else if ltb 64 (shift + 7)
            then done (r', err (decode_error unexpected_encoding_len))
            else again
      ]

  unfoldable pub decode_reader : R → Run Answer
  unfolding reader_loop
  decode_reader r = reader_loop 10 r 0 0 0

module _ (writer : Writer) where
  open writer use {W, Error, write_all}

  unfoldable pub write_sync : W → ℕ → Run (W × Result Error ℕ)
  unfolding and_then encode_vec
  write_sync dest num = encode_vec num >>= λ vec.
      done (and_then writer (write_all dest vec) (λ dest'. (dest', ok (length vec))))
