-- ===== src/VByte/Sync/RoundTrip.antt =====
-- `decode_reader` on what the encoders write.
use tdb_succinct_wasm.Base.{
  ℕ, ◌^◌, ◌<◌, ◌≡◌, refl, ap, ◌∙◌, Bool, true, false, List, [], ◌∷◌, ◌++◌, Run, done, panic, ok,
}
use tdb_succinct_wasm.VByte.{Buf, encoding_len, decode_buf}
use tdb_succinct_wasm.VByte.Encode.{groups}
use tdb_succinct_wasm.VByte.Decode.Groups.{decode_buf-groups}
use tdb_succinct_wasm.VByte.Sync.{Reader, decode_reader}
use tdb_succinct_wasm.VByte.Sync.Reads.{Serves, Agrees, reader_loop-Matches, done-Matches}

abbrev not_empty : List ℕ → Bool
not_empty [] = false
not_empty (x ∷ xs) = true

abbrev first_byte : List ℕ → Run (ℕ × List ℕ)
first_byte [] = panic
first_byte (x ∷ xs) = done (x, xs)

-- A list of bytes as a buffer, to compare a reader with.
abbrev bytes_buf : Buf
bytes_buf = record {
  B = List ℕ;
  has_remaining = not_empty;
  get_u8 = first_byte;
  contents = λ bs. bs;
  empty_lem = λ b e. rw e refl;
  remaining_lem = λ b x xs e. rw e refl;
  get_u8_lem = λ b x xs e. (xs, rw e refl, refl);
}

module _ (reader : Reader) where
  -- On a reader that hands out what the encoders write of a `u64`, then any other bytes and then an
  -- error, `decode_reader` answers without a panic the number and the length of its encoding, and
  -- leaves a reader that hands out exactly the bytes behind, and then the error.
  pub decode_reader-groups :
      (num : ℕ) (rest : List ℕ) (r : reader.R) (e : reader.Error)
      → num < 2 ^ 64
      → Serves reader (groups 9 num ++ rest) r e
      → (r' : reader.R) × (decode_reader reader r ≡ done (r', ok (num, encoding_len num)))
        × Serves reader rest r' e
  unfolding decode_reader decode_buf Agrees
  decode_reader-groups num rest r e h serves =
      let bs = groups 9 num ++ rest in
      let (b, run, left) = decode_buf-groups bytes_buf num bs rest h refl in
      let ((r', a), read, agrees) =
        done-Matches reader bytes_buf e (ok (num, encoding_len num, b)) _
          (rw run at (reader_loop-Matches reader bytes_buf 10 bs bs r e 0 0 0 refl serves)) in
      let (same, behind) = agrees in (r', read ∙ ap (λ x. done (r', x)) same, rw left at behind)
