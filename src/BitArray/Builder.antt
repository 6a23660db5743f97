-- ===== src/BitArray/Builder.antt =====
-- bitarray.rs: `BitArrayBufBuilder`.
pub mod Push
pub mod RoundTrip
use tdb_succinct_wasm.Base.{
  ℕ, zero, suc, ◌+◌, ◌/◌, ◌^◌, bit_and, bit_or, Bool, true, false, List, [], ◌∷◌, ◌==◌,
  if◌then◌else◌,
}
use tdb_succinct_wasm.Bits.Shift.{◌>>>◌}
use tdb_succinct_wasm.Words.{Buffers}

pub record Builder : Type 0 where
  pub dest : List ℕ
  pub current : ℕ
  pub count : ℕ

unfoldable pub new : List ℕ → Builder
new dest = record { dest = dest; current = 0; count = 0 }

-- The bit joins the current word at its place, if it is set.
abbrev pub joined : Builder → Bool → ℕ
joined b bit =
    if bit then bit_or b.current (0x8000_0000_0000_0000 >>> bit_and b.count 0x3f) else b.current

module _ (io : Buffers) where
  pub push : Builder → Bool → Builder
  push b bit =
      if bit_and (b.count + 1) 0x3f == 0
      then record { dest = io.put_u64 b.dest (joined b bit); current = 0; count = b.count + 1 }
      else record { dest = b.dest; current = joined b bit; count = b.count + 1 }

  pub push_all : Builder → List Bool → Builder
  push_all b [] = b
  push_all b (bit ∷ bits) = push_all (push b bit) bits

  pub finalize_data : Builder → Builder
  finalize_data b =
      if bit_and b.count 0x3f == 0 then b else record b { dest = io.put_u64 b.dest b.current }

  pub finalize : Builder → List ℕ
  finalize b = io.put_u64 (finalize_data b).dest b.count
