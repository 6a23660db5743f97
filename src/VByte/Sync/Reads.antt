-- ===== src/VByte/Sync/Reads.antt =====
-- `decode_reader` beside `decode_buf`.
use tdb_succinct_wasm.Base.{
  ℕ, zero, suc, ◌+◌, ◌≡◌, refl, ◌&&◌, inl, inr, List, Run, panic, [], ◌∷◌, ltb, leb, ◌==◌, done, ok,
  err, Bool-cases,
}
use tdb_succinct_wasm.VByte.{
  Buf, Decoded, encoded_value_too_large, unexpected_end_of_buffer, unexpected_encoding_len,
  decode_loop,
}
use tdb_succinct_wasm.VByte.Sync.{Reader, decode_error, Answer, from_io, reader_loop}

module _ (reader : Reader) where
  open reader use {R, Error, read_exact}

  -- A reader that hands out these bytes one by one, and then this error.
  unfoldable pub Serves : List ℕ → R → Error → Type 0
  Serves [] r e = (r' : R) × (read_exact r 1 ≡ (r', err e))
  Serves (x ∷ xs) r e = (r' : R) × (read_exact r 1 ≡ (r', ok (x ∷ []))) × Serves xs r' e

  module _ (buf : Buf) where
    open buf use {B, contents}

    -- The answer of the buffer's decoder as the reader's: the end of the bytes is the reader's error.
    unfoldable pub Agrees : Error → Decoded B → Answer reader → Type 0
    unfolding Serves
    Agrees e (ok (v, count, rest)) (r, a) = (a ≡ ok (v, count)) × Serves (contents rest) r e
    Agrees e (err unexpected_end_of_buffer) (r, a) = a ≡ err (from_io reader e)
    Agrees e (err encoded_value_too_large) (r, a) = a ≡ err (decode_error encoded_value_too_large)
    Agrees e (err unexpected_encoding_len) (r, a) = a ≡ err (decode_error unexpected_encoding_len)

    -- The same for runs that may panic: both do, or none.
    pub Matches : Error → Run (Decoded B) → Run (Answer reader) → Type 0
    unfolding Agrees
    Matches e panic panic = Unit {0}
    Matches e panic (done a) = ⊥
    Matches e (done q) panic = ⊥
    Matches e (done q) (done a) = Agrees e q a

    pub done-Matches :
        (e : Error) (q : Decoded B) (run : Run (Answer reader))
        → Matches e (done q) run
        → (a : Answer reader) × (run ≡ done a) × Agrees e q a
    unfolding Matches
    done-Matches e q panic m = absurd m
    done-Matches e q (done a) m = (a, refl, m)

    -- Round for round, the loops do the same.
    pub reader_loop-Matches :
        (fuel : ℕ) (bs : List ℕ) (b : B) (r : R) (e : Error) (num shift count : ℕ)
        → contents b ≡ bs
        → Serves bs r e
        → Matches e
            (decode_loop buf fuel b num shift count)
            (reader_loop reader fuel r num shift count)
    unfolding Matches Agrees Serves decode_loop reader_loop
    reader_loop-Matches zero bs b r e num shift count held serves = tt
    reader_loop-Matches (suc fuel) [] b r e num shift count held (r', read) =
        rw (buf.empty_lem b held, reader_loop, read) refl
    reader_loop-Matches (suc fuel) (x ∷ xs) b r e num shift count held (r', read, serves) =
        let (rest, taken, left) = buf.get_u8_lem b x xs held in
        let serves' : Serves xs (read_exact r 1).0 e = rw read serves in
        elim (Bool-cases (leb 0x80 x)) [
          | inl last ↦ elim (Bool-cases (shift == 63 && ltb 0x81 x)) [
            | inl big ↦ rw (buf.remaining_lem b x xs held, taken, reader_loop, read, last, big) refl
            | inr small ↦
                rw (buf.remaining_lem b x xs held, taken, reader_loop, read, last, small)
                  (refl, rw left serves')
          ]
          | inr more ↦ elim (Bool-cases (ltb 64 (shift + 7))) [
            | inl long ↦
                rw (buf.remaining_lem b x xs held, taken, reader_loop, read, more, long) refl
            | inr room ↦
                rw (buf.remaining_lem b x xs held, taken, reader_loop, read, more, room)
                  (reader_loop-Matches fuel xs rest _ e _ _ _ left serves')
          ]
        ]
