-- ===== src/VByte/Sync/Writes.antt =====
-- `write_sync` on any writer.
use tdb_succinct_wasm.Base.{ℕ, ◌^◌, ◌<◌, ◌≡◌, ap, done, ok}
use tdb_succinct_wasm.Util.{Writer, and_then}
use tdb_succinct_wasm.VByte.{encoding_len}
use tdb_succinct_wasm.VByte.Encode.{groups, encoding_len-groups, encode_vec_lem}
use tdb_succinct_wasm.VByte.Sync.{write_sync}

module _ (writer : Writer) where
  -- For a number below 2 ^ 64 and any writer, `write_sync` does not panic and makes one call of
  -- `write_all`, with the groups of the number: it answers the length of the encoding behind that
  -- call, or the call's error, and leaves the call's writer behind.
  pub write_sync_lem :
      (dest : writer.W) (num : ℕ)
      → num < 2 ^ 64
      → write_sync writer dest num
        ≡ done (
            and_then writer
              (writer.write_all dest (groups 9 num))
              (λ dest'. (dest', ok (encoding_len num))))
  unfolding write_sync
  write_sync_lem dest num h =
      let (vec, _) = encode_vec_lem num h in
      let (size, _, _) = encoding_len-groups num h in
      rw vec (
        ap
          (λ n.
            done (and_then writer (writer.write_all dest (groups 9 num)) (λ dest'. (dest', ok n))))
          size)
