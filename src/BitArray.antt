-- ===== src/BitArray.antt =====
-- bitarray.rs: arrays of bits over 64-bit words, with their length in the last word.
pub mod Blocks
pub mod Builder
pub mod Get
use tdb_succinct_wasm.Base.{
  ℕ, zero, suc, ◌+◌, ◌-◌, ◌*◌, ◌/◌, ◌%◌, ◌^◌, bit_and, Bool, true, false, Option, none, some, List,
  [], ◌∷◌, length, ltb, ◌==◌, not, if◌then◌else◌, Run, done, panic, ◌>>=◌, ◌>>◌, assert, Result, ok,
  err,
}
use tdb_succinct_wasm.Bits.Shift.{◌<<<◌, ◌>>>◌}
use tdb_succinct_wasm.Words.{Buffers, byte_at, slice_from}

pub record BitArray : Type 0 where
  pub len : ℕ
  pub buf : List ℕ

pub data BitArrayError : Type 0 where
  input_buffer_too_small : ℕ → BitArrayError
  unexpected_input_buffer_size : ℕ → ℕ → ℕ → BitArrayError

pub validate_input_buf_size : ℕ → Result BitArrayError (Unit {0})
validate_input_buf_size input_buf_size =
    if ltb input_buf_size 8 then err (input_buffer_too_small input_buf_size) else ok tt

-- The words of the bits and the word of the length, in bytes; below 2 ^ 64 for every `u64`.
abbrev pub expected_buf_size : ℕ → ℕ
expected_buf_size len =
    let after_shifting = (len >>> 6) <<< 3 in
    if bit_and len 0x3f == 0 then after_shifting + 8 else after_shifting + 16

pub validate_len : ℕ → ℕ → Result BitArrayError (Unit {0})
validate_len input_buf_size len =
    if input_buf_size == expected_buf_size len
    then ok tt
    else err (unexpected_input_buffer_size input_buf_size (expected_buf_size len) len)

-- `?` on a `Result` inside a computation that may panic.
infixl 5 ◌>>?◌
abbrev pub ◌>>?◌ {ℓ κ} :
    {A : Type ℓ} {B : Type κ}
    → Result BitArrayError A
    → (A → Run (Result BitArrayError B))
    → Run (Result BitArrayError B)
ok a >>? f = f a
err e >>? f = done (err e)

module _ (io : Buffers) where
  pub read_control_word : List ℕ → ℕ → Run (Result BitArrayError ℕ)
  unfolding validate_len
  read_control_word buf input_buf_size = do
    len ← io.read_u64 buf
    validate_len input_buf_size len >>? λ _. done (ok len)

  pub from_bits : List ℕ → Run (Result BitArrayError BitArray)
  unfolding read_control_word validate_input_buf_size
  from_bits buf =
      let input_buf_size = length buf in
      validate_input_buf_size input_buf_size >>? λ _. do
        (kept, word) ← io.split_off buf (input_buf_size - 8)
        len ← read_control_word word input_buf_size
        len >>? λ n. done (ok (record { len = n; buf = kept }))

unfoldable pub is_empty : BitArray → Bool
is_empty a = a.len == 0

pub get : BitArray → ℕ → Run Bool
get a index = do
  assert (ltb index a.len)
  byte ← byte_at a.buf (index / 8)
  let mask = 0x80 >>> (index % 8)
  done (not (bit_and byte mask == 0))

-- The bits from `index` on that `iter` has left to hand out, `n` of them.
pub iter_from : ℕ → BitArray → ℕ → Run (List Bool)
unfolding get
iter_from zero a index = done []
iter_from (suc n) a index =
    get a index >>= λ bit. iter_from n a (index + 1) >>= λ rest. done (bit ∷ rest)

-- All that `iter` hands out.
pub iter : BitArray → Run (List Bool)
unfolding iter_from
iter a = iter_from a.len a 0

-- `decode_next_bitarray_block` with a block held back: the answer, what is left of the buffer, and
-- the block held back then.
decode_held : Buffers → List ℕ → ℕ → Run (Option ℕ × List ℕ × Option ℕ)
decode_held io bytes held =
    if ltb (io.remaining bytes) 8
    then done (none, bytes, some held)
    else (io.get_u64 bytes >>= λ (word, rest). done (some held, rest, some word))

-- With none held back, the first word is held and the call is made again.
pub decode_next_bitarray_block : Buffers → List ℕ → Option ℕ → Run (Option ℕ × List ℕ × Option ℕ)
unfolding decode_held
decode_next_bitarray_block io bytes none =
    if ltb (io.remaining bytes) 8
    then done (none, bytes, none)
    else (io.get_u64 bytes >>= λ (word, rest). decode_held io rest word)
decode_next_bitarray_block io bytes (some held) = decode_held io bytes held

-- `BitArrayBlockIterator`, run to its end. Each block takes 8 bytes, so a fuel above the length of
-- the buffer is enough.
collect_blocks : Buffers → ℕ → List ℕ → Option ℕ → Run (List ℕ)
unfolding decode_next_bitarray_block
collect_blocks io zero bytes readahead = panic
collect_blocks io (suc fuel) bytes readahead = do
  (block, rest, held) ← decode_next_bitarray_block io bytes readahead
  elim block [
    | none ↦ done []
    | some word ↦ collect_blocks io fuel rest held >>= λ words. done (word ∷ words)
  ]

-- The blocks of `bitarray_iter_blocks`: all words but the last, which is the length.
unfoldable pub iter_blocks : Buffers → List ℕ → Run (List ℕ)
unfolding collect_blocks
iter_blocks io bytes = collect_blocks io (length bytes + 1) bytes none
