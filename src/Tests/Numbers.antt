-- ===== src/Tests/Numbers.antt =====
-- Runs of the codecs for single numbers and of the helpers on byte strings.
use tdb_succinct_wasm.Base.{
  ℕ, leb, err, take, ◌+◌, ◌-◌, ◌^◌, ◌%◌, ◌≤◌, ◌<◌, ◌≡◌, ◌↔◌, refl, Bool, true, false, none, some,
  List, [], ◌∷◌, ◌++◌, length, get_or, drop, replicate, if◌then◌else◌, done, ok, ltb, arith,
}
use tdb_succinct_wasm.VByte.{encoding_len, decode_buf, encode_slice, encode_vec, encode_array}
use tdb_succinct_wasm.VByte.Encode.{groups, encoding_len-groups, encode_slice_lem, encode_vec_lem}
use tdb_succinct_wasm.VByte.Decode.{Explains, decode_buf_lem}
use tdb_succinct_wasm.VByte.Decode.Groups.{decode_buf-groups}
use tdb_succinct_wasm.VByte.Sync.{io, Reader, decode_reader, write_sync}
use tdb_succinct_wasm.VByte.Sync.Reads.{Serves}
use tdb_succinct_wasm.VByte.Sync.RoundTrip.{decode_reader-groups}
use tdb_succinct_wasm.VByte.Sync.Writes.{write_sync_lem}
use tdb_succinct_wasm.Bits.Count.{leading_zeros}
use tdb_succinct_wasm.Words.Width.{calculate_width, calculate_width_fits}
use tdb_succinct_wasm.Util.{Writer, and_then, find_common_prefix_ord, write_padding}
use tdb_succinct_wasm.Util.Padding.{write_padding_lem}
use tdb_succinct_wasm.Util.Prefix.{common, lexicographic}
use tdb_succinct_wasm.Util.Prefix.Compare.{find_common_prefix_ord_lem}
use tdb_succinct_wasm.SmallBitArray.{SmallBitArray, get, iter, collect, rank1}
use tdb_succinct_wasm.SmallBitArray.Laws.{rank1-iter}
use tdb_succinct_wasm.BitArray.Get.{ones}
use tdb_succinct_wasm.Tests.Crates.{slice_buf}

encoding_len-groups_example :
    (length (groups 9 300) ≡ encoding_len 300) × (1 ≤ encoding_len 300) × (encoding_len 300 ≤ 10)
encoding_len-groups_example = encoding_len-groups 300 (omega arith)

abbrev three_sevens : List ℕ
three_sevens = 7 ∷ 7 ∷ 7 ∷ []

encode_slice_example :
    encode_slice three_sevens 300
    ≡ done (
        if ltb (length three_sevens) (encoding_len 300)
        then none
        else some (groups 9 300 ++ drop (encoding_len 300) three_sevens, encoding_len 300))
encode_slice_example = encode_slice_lem three_sevens 300 (omega arith)

encode_vec_example :
    (encode_vec 300 ≡ done (groups 9 300))
    × (encode_array 300
        ≡ done (groups 9 300 ++ replicate (10 - encoding_len 300) 0, encoding_len 300))
encode_vec_example = encode_vec_lem 300 (omega arith)

-- The bytes of 300 and one more.
abbrev three_hundred : List ℕ
three_hundred = 44 ∷ 130 ∷ 9 ∷ []

decode_buf_example :
    (r : _) × (decode_buf slice_buf three_hundred ≡ done r) × Explains slice_buf three_hundred 0 0 r
decode_buf_example =
    decode_buf_lem slice_buf three_hundred (omega arith, (omega arith, (omega arith, tt)))

decode_buf-groups_example :
    (b' : List ℕ) × (decode_buf slice_buf (groups 9 300 ++ (9 ∷ []))
      ≡ done (ok (300, encoding_len 300, b')))
    × (b' ≡ 9 ∷ [])
decode_buf-groups_example =
    decode_buf-groups slice_buf 300 (groups 9 300 ++ (9 ∷ [])) (9 ∷ []) (omega arith) refl

calculate_width_fits_example :
    (1 ≤ calculate_width 1000)
    × (calculate_width 1000 ≤ 64)
    × ((calculate_width 1000 ≤ 10) ↔ (1000 < 2 ^ 10))
calculate_width_fits_example = calculate_width_fits 1000 10 (omega arith) (omega arith)

find_common_prefix_ord_example :
    find_common_prefix_ord (1 ∷ 2 ∷ 3 ∷ []) (1 ∷ 2 ∷ 4 ∷ [])
    ≡ done
        (common (1 ∷ 2 ∷ 3 ∷ []) (1 ∷ 2 ∷ 4 ∷ []), lexicographic (1 ∷ 2 ∷ 3 ∷ []) (1 ∷ 2 ∷ 4 ∷ []))
find_common_prefix_ord_example = find_common_prefix_ord_lem (1 ∷ 2 ∷ 3 ∷ []) (1 ∷ 2 ∷ 4 ∷ [])

abbrev small_array : SmallBitArray
small_array = record { val = 2 ^ 63 + 2 ^ 60 }

rank1-iter_example :
    (bs : List Bool) × (collect 64 (iter small_array) ≡ bs)
    × (length bs ≡ 63)
    × ((i : ℕ) → i < 63 → get small_array i ≡ done (get_or bs i false))
    × ((i : ℕ) → i < 63 → rank1 small_array i ≡ done (ones bs (i + 1)))
rank1-iter_example = rank1-iter small_array (omega arith)

data Full : Type 0 where
  full : Full

-- A writer over a place of limited size: it keeps the bytes that fit, and errs on more.
abbrev bounded : Writer
bounded = record {
  W = ℕ × List ℕ;
  Error = Full;
  write_all = λ (room, written) bytes.
      if leb (length bytes) room
      then ((room - length bytes, written ++ bytes), ok tt)
      else ((0, written ++ take room bytes), err full);
}

-- Two of the five zeros fit, and the writer's error comes through.
padding_overflows :
    write_padding bounded (2, three_sevens) 3 8 ≡ done ((0, three_sevens ++ (0 ∷ 0 ∷ [])), err full)
unfolding write_padding
padding_overflows = refl

write_padding_example :
    (count : ℕ) × (write_padding bounded (2, three_sevens) 3 8
      ≡ done (bounded.write_all (2, three_sevens) (replicate count 0)))
    × (count < 8)
    × ((3 + count) % 8 ≡ 0)
write_padding_example = write_padding_lem bounded (2, three_sevens) 3 8 (omega arith)

data Broken : Type 0 where
  at_end reset : Broken

-- A reader over some bytes: behind them the connection is reset.
abbrev reading : Reader
reading = record {
  R = List ℕ;
  Error = Broken;
  is_unexpected_eof = λ e. elim e [ at_end ↦ true | reset ↦ false ];
  read_exact = λ bs n. if leb n (length bs) then (drop n bs, ok (take n bs)) else ([], err reset);
}

three_hundred-Serves : Serves reading three_hundred three_hundred reset
unfolding Serves
three_hundred-Serves = (130 ∷ 9 ∷ [], refl, (9 ∷ [], refl, ([], refl, ([], refl))))

-- The bytes end within a number, and the reader's own error comes through.
reset_within : decode_reader reading (44 ∷ []) ≡ done ([], err (io reset))
unfolding decode_reader
reset_within = refl

groups_of_300 : groups 9 300 ++ (9 ∷ []) ≡ three_hundred
unfolding groups
groups_of_300 = refl

decode_reader-groups_example :
    (r' : List ℕ) × (decode_reader reading three_hundred ≡ done (r', ok (300, encoding_len 300)))
    × Serves reading (9 ∷ []) r' reset
decode_reader-groups_example =
    decode_reader-groups reading 300 (9 ∷ []) three_hundred reset (omega arith)
      (rw groups_of_300 three_hundred-Serves)

write_sync_example :
    write_sync bounded (1, []) 300
    ≡ done (
        and_then bounded
          (bounded.write_all (1, []) (groups 9 300))
          (λ dest. (dest, ok (encoding_len 300))))
write_sync_example = write_sync_lem bounded (1, []) 300 (omega arith)

-- One of the two bytes fits.
write_sync_overflows : write_sync bounded (1, []) 300 ≡ done ((0, 44 ∷ []), err full)
unfolding write_sync leading_zeros
write_sync_overflows = refl
