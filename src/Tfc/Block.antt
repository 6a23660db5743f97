-- ===== src/Tfc/Block.antt =====
-- tfc/block.rs: blocks of up to eight byte strings, the first in full and each other one as the
-- length that it shares with the one before and the bytes behind.
pub mod Build
pub mod Parse
pub mod Lookup
pub mod Strings
pub mod Chain
pub mod EntryOf
pub mod Search
pub mod RoundTrip
pub mod Iterate
use tdb_succinct_wasm.Base.{
  ℕ, zero, suc, ◌+◌, ◌-◌, ◌*◌, ◌/◌, ◌^◌, ◌≡◌, refl, bit_and, Bool, true, false, ◌&&◌, not, Option,
  none, some, List, [], ◌∷◌, ◌++◌, length, take, drop, get_elem?, replicate, ltb, leb, ◌==◌,
  if◌then◌else◌, Run, done, panic, ◌>>=◌, ◌>>◌, assert, checked_sub, Result, ok, err,
}
use tdb_succinct_wasm.Bits.Shift.{◌>>>◌, ◌<<<◌}
use tdb_succinct_wasm.Words.{Buffers}
use tdb_succinct_wasm.VByte.{Buf, DecodeError, unexpected_end_of_buffer, decode_buf, encode_array}
use tdb_succinct_wasm.Util.{find_common_prefix}
use tdb_succinct_wasm.BitIndex.Build.{sum}

-- `BLOCK_SIZE`.
abbrev pub block_size : ℕ
block_size = 8

pub data SizedDictError : Type 0 where
  invalid_coding : SizedDictError
  not_enough_data : SizedDictError

-- `From<vbyte::DecodeError>`.
unfoldable pub from_decode_error : DecodeError → SizedDictError
from_decode_error unexpected_end_of_buffer = not_enough_data
from_decode_error e = invalid_coding

pub record SizedBlockHeader : Type 0 where
  pub head : List ℕ
  pub num_entries : ℕ
  pub buffer_length : ℕ
  pub sizes : List ℕ
  pub shareds : List ℕ

pub record SizedDictBlock : Type 0 where
  pub header : SizedBlockHeader
  pub data_bytes : List ℕ

unfoldable pub record_size_decoding : ℕ → Run (Option ℕ)
record_size_decoding enc =
    let kind = enc >>> 3 in
    if kind == 0
    then done none
    else if kind == 3
    then done (some 4)
    else if kind == 4
    then done (some 8)
    else panic

unfoldable pub record_size_encoding : Option ℕ → Run ℕ
record_size_encoding none = done 0
record_size_encoding (some size) =
    if size == 4 then done (3 <<< 3) else if size == 8 then done (4 <<< 3) else panic

unfoldable pub parse_block_control_word : ℕ → Run (Option ℕ × ℕ)
unfolding record_size_decoding
parse_block_control_word cw =
    record_size_decoding cw >>= λ record_size. done (record_size, bit_and cw 7 + 1)

unfoldable pub parse_block_control_records : ℕ → Run ℕ
unfolding parse_block_control_word
parse_block_control_records cw =
    parse_block_control_word cw >>= λ (record_size, records). done records

unfoldable pub create_block_control_word : Option ℕ → ℕ → Run ℕ
unfolding record_size_encoding
create_block_control_word record_size records = do
  before ← checked_sub records 1
  encoding ← record_size_encoding record_size
  assert (ltb (before + encoding) 256)
  done (before + encoding)

-- The rest of a computation that may end with an error.
infixl 5 ◌>>?◌
abbrev pub ◌>>?◌ {ℓ κ} :
    {E : Type 0} {A : Type ℓ} {B : Type κ}
    → Run (Result E A)
    → (A → Run (Result E B))
    → Run (Result E B)
m >>? f = m >>= λ r. elim r [ ok a ↦ f a | err e ↦ done (err e) ]

-- `Bytes` as the buffer of a decoder.
abbrev pub bytes_buf : Buffers → Buf
bytes_buf io = record {
  B = List ℕ;
  has_remaining = io.has_remaining;
  get_u8 = io.get_u8;
  contents = λ bs. bs;
  empty_lem = λ b e. rw e io.has_remaining_nil;
  remaining_lem = λ b x xs e. rw e (io.has_remaining_cons x xs);
  get_u8_lem = λ b x xs e. (xs, rw e (io.get_u8_cons x xs), refl);
}

-- An array of seven numbers, with 0 where none was read.
abbrev pub padded : List ℕ → List ℕ
padded ns = ns ++ replicate (block_size - 1 - length ns) 0

unfoldable pub sizes_of : List (ℕ × ℕ) → List ℕ
sizes_of [] = []
sizes_of ((shared, size) ∷ entries) = size ∷ sizes_of entries

unfoldable pub shareds_of : List (ℕ × ℕ) → List ℕ
shareds_of [] = []
shareds_of ((shared, size) ∷ entries) = shared ∷ shareds_of entries

module _ (io : Buffers) where
  -- `vbyte::decode_buf(buf)?`.
  unfoldable pub decode_number : List ℕ → Run (Result SizedDictError (ℕ × List ℕ))
  unfolding from_decode_error
  decode_number buf = decode_buf (bytes_buf io) buf >>= λ r.
      done (elim r [ ok (num, count, rest) ↦ ok (num, rest) | err e ↦ err (from_decode_error e) ])

  -- The shared length and the size of an entry.
  unfoldable pub parse_sizes : Option ℕ → List ℕ → Run (Result SizedDictError ((ℕ × ℕ) × List ℕ))
  unfolding decode_number
  parse_sizes none buf = decode_number buf >>? λ (shared, buf').
      decode_number buf' >>? λ (size, buf''). done (ok ((shared, size), buf''))
  parse_sizes (some record_size) buf = decode_number buf >>? λ (shared, buf').
      checked_sub record_size shared >>= λ size. done (ok ((shared, size), buf'))

  -- The loop over the entries behind the head, `n` of them.
  unfoldable pub parse_entries :
      ℕ → Option ℕ → List ℕ → Run (Result SizedDictError (List (ℕ × ℕ) × List ℕ))
  unfolding parse_sizes
  parse_entries zero record_size buf = done (ok ([], buf))
  parse_entries (suc n) record_size buf = parse_sizes record_size buf >>? λ (entry, buf').
      parse_entries n record_size buf' >>? λ (entries, buf''). done (ok (entry ∷ entries, buf''))

  unfoldable pub parse_header : List ℕ → Run (Result SizedDictError (SizedBlockHeader × List ℕ))
  unfolding parse_block_control_word decode_number parse_entries sizes_of shareds_of sum
  parse_header buf = io.get_u8 buf >>= λ (cw, buf1).
      parse_block_control_word cw >>= λ (record_size, num_entries).
      decode_number buf1 >>? λ (first_size, buf2). io.split_to buf2 first_size >>= λ (head, buf3).
      parse_entries (num_entries - 1) record_size buf3 >>? λ (entries, buf4).
      let sizes = padded (sizes_of entries) in
      assert (ltb (sum sizes) (2 ^ 64)) >>= λ _. done (
        ok (
          record {
            head = head;
            num_entries = num_entries;
            buffer_length = sum sizes;
            sizes = sizes;
            shareds = padded (shareds_of entries);
          },
          buf4,
        ))

  -- `SizedDictBlock::parse`.
  unfoldable pub parse : List ℕ → Run (Result SizedDictError (SizedDictBlock × List ℕ))
  unfolding parse_header
  parse bytes = parse_header bytes >>? λ (header, bytes').
      if ltb (io.remaining bytes') header.buffer_length
      then done (err not_enough_data)
      else (io.split_to bytes' header.buffer_length >>= λ (block_bytes, rest).
          done (ok (record { header = header; data_bytes = block_bytes }, rest)))

  unfoldable pub block_head : List ℕ → Run (Result SizedDictError (List ℕ))
  unfolding decode_number
  block_head block = io.advance block 1 >>= λ block1. decode_number block1 >>? λ (size, block2).
      io.split_to block2 size >>= λ (head, rest). done (ok head)

  -- The number that `encode_array` writes, behind the buffer, and the size of its encoding.
  unfoldable pub put_number : List ℕ → ℕ → Run (List ℕ × ℕ)
  put_number buf num = encode_array num >>= λ (vbyte, vbyte_len).
      done (io.put_slice buf (take vbyte_len vbyte), vbyte_len)

  -- The loop of `build_block_unchecked` over the slices behind `last`: the buffer, the size, and the
  -- suffixes so far.
  unfoldable pub build_entries :
      Option ℕ
      → List (List ℕ)
      → List ℕ
      → List ℕ
      → ℕ
      → List (List ℕ)
      → Run (List ℕ × ℕ × List (List ℕ))
  unfolding put_number
  build_entries record_size [] last buf size suffixes = done (buf, size, suffixes)
  build_entries record_size (cur ∷ slices) last buf size suffixes = do
    common_prefix ← find_common_prefix last cur
    (buf1, vbyte_len) ← put_number buf common_prefix
    suffix_len ← checked_sub (length cur) common_prefix
    (buf2, suffix_vbyte_len) ← elim record_size [
      | none ↦ put_number buf1 suffix_len
      | some k ↦ done (buf1, 0)
    ]
    build_entries record_size slices cur buf2 (size + vbyte_len + suffix_vbyte_len)
        (suffixes ++ (drop common_prefix cur ∷ []))

  -- The last loop: the suffixes themselves.
  unfoldable pub put_suffixes : List (List ℕ) → List ℕ → ℕ → List ℕ × ℕ
  put_suffixes [] buf size = (buf, size)
  put_suffixes (suffix ∷ suffixes) buf size =
      put_suffixes suffixes (io.put_slice buf suffix) (size + length suffix)

  unfoldable pub build_block_unchecked : Option ℕ → List ℕ → List (List ℕ) → Run (List ℕ × ℕ)
  unfolding create_block_control_word put_number build_entries put_suffixes
  build_block_unchecked record_size buf [] = panic
  build_block_unchecked record_size buf (first ∷ slices) = do
    assert (leb (length slices + 1) block_size)
    cw ← create_block_control_word record_size (length slices + 1)
    (buf1, vbyte_len) ← put_number (io.put_u8 buf cw) (length first)
    (buf2, size, suffixes) ←
        build_entries record_size slices first (io.put_slice buf1 first)
          (1 + vbyte_len + length first) []
    done (put_suffixes suffixes buf2 size)
