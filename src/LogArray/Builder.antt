-- ===== src/LogArray/Builder.antt =====
-- logarray.rs, the writing half: `LogArrayBufBuilder` and `control_word`.
-- A builder's buffer is the list of bytes written so far.
pub mod Push
pub mod Step
pub mod Finalize
use tdb_succinct_wasm.Base.{
  ℕ, zero, suc, ◌+◌, ◌-◌, ◌*◌, ◌/◌, ◌%◌, ◌^◌, ◌≤◌, ◌<◌, bit_and, bit_or, ◌≡◌, Bool, true, false,
  Option, none, some, List, [], ◌∷◌, ◌++◌, length, replicate, set, take, drop, ltb, leb, ◌==◌, not,
  if◌then◌else◌, Run, done, panic, ◌>>=◌, ◌>>◌, assert, checked_sub,
}
use tdb_succinct_wasm.Bits.Shift.{◌<<<◌, ◌>>>◌, u64}
use tdb_succinct_wasm.Bits.Count.{leading_zeros}
use tdb_succinct_wasm.Words.{Buffers, shl, shr}

-- `LogArrayBufBuilder`.
pub record Builder : Type 0 where
  pub buf : List ℕ
  pub width : ℕ
  pub current : ℕ
  pub offset : ℕ
  pub count : ℕ

unfoldable pub new : List ℕ → ℕ → Builder
new buf width = record { buf = buf; width = width; current = 0; offset = 0; count = 0 }

abbrev pub max_logarray_len : ℕ
max_logarray_len = 2 ^ 56 - 1

module _ (io : Buffers) where
  -- The second half of `push`: the word is full, and `offset` is what the element takes beyond it.
  pub start_word : Builder → ℕ → ℕ → ℕ → Run Builder
  start_word b val current offset = do
    rest ←
        (if offset == 0 then done 0 else (checked_sub 64 offset >>= λ distance. shl val distance))
    done (record {
      buf = io.put_u64 b.buf current;
      width = b.width;
      current = rest;
      offset = offset;
      count = b.count + 1;
    })

  -- A value that does not fit panics. (A comment in the source speaks of an error there.)
  pub push : Builder → ℕ → Run Builder
  unfolding start_word
  push b val = do
    missing ← checked_sub 64 b.width
    assert (leb missing (leading_zeros val))
    high ← shl val missing
    part ← shr high b.offset
    let current = bit_or b.current part
    let offset = b.offset + b.width
    if leb 64 offset
        then start_word b val current (offset - 64)
        else done (record b { current = current; offset = offset; count = b.count + 1 })

  pub push_vec : Builder → List ℕ → Run Builder
  unfolding push
  push_vec b [] = done b
  push_vec b (val ∷ vals) = push b val >>= λ b'. push_vec b' vals

  pub finalize_data : Builder → Builder
  finalize_data b =
      if bit_and (b.count * b.width) 0x3f == 0
      then b
      else record b { buf = io.put_u64 b.buf b.current }

  -- The 8 bytes of the control word.
  pub control_word : ℕ → ℕ → Run (List ℕ)
  control_word len width = do
    assert (leb len max_logarray_len)
    let len_1 = bit_and len 0xffffffff
    let len_2 = bit_and (len >>> 32) 0xffffff
    front ← io.write_u32 (replicate 8 0) len_1
    back ← io.write_u32 (drop 4 front) len_2
    done (take 4 front ++ set back 0 width)

  pub write_control_word : Builder → Run Builder
  write_control_word b = do
    word ← control_word b.count b.width
    done (record b { buf = io.put_slice b.buf word })

  pub finalize : Builder → Run (List ℕ)
  finalize b = write_control_word (finalize_data b) >>= λ b'. done b'.buf

  pub finalize_without_control_word : Builder → List ℕ
  finalize_without_control_word b = (finalize_data b).buf
