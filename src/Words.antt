-- ===== src/Words.antt =====
-- Words of 64 bits in byte buffers, and the crates that read and write them.
pub mod Stream
pub mod Width
pub mod Bytes
use tdb_succinct_wasm.Base.{
  Bool, true, false, ℕ, zero, suc, ◌+◌, ◌*◌, ◌/◌, ◌%◌, ◌^◌, ◌≤◌, ◌<◌, ◌≡◌, List, [], ◌∷◌, ◌++◌,
  length, take, drop, get_elem?, ltb, none, some, if◌then◌else◌, Run, done, panic,
}
use tdb_succinct_wasm.Bits.Shift.{◌<<<◌, ◌>>>◌, u64}

-- `to_be_bytes` of a number of `k` bytes: the highest byte first.
unfoldable pub to_be_bytes : ℕ → ℕ → List ℕ
to_be_bytes zero n = []
to_be_bytes (suc k) n = (n / 256 ^ k % 256) ∷ to_be_bytes k n

-- The calls of the crates `byteorder` and `bytes` that the program makes on buffers, with what
-- their documentation says of each. A buffer is the list of its bytes.
pub record Buffers : Type 0 where
  -- `BigEndian::read_u64` and `read_u32`: the first bytes of a slice as a big-endian number, with a
  -- panic on a slice that is too short.
  pub read_u64 : List ℕ → Run ℕ
  pub read_u32 : List ℕ → Run ℕ
  -- `BigEndian::write_u32` on the front of a slice.
  pub write_u32 : List ℕ → ℕ → Run (List ℕ)
  -- `BufMut::put_u64`, `put_slice` and `put` on a buffer that grows.
  pub put_u64 : List ℕ → ℕ → List ℕ
  pub put_slice : List ℕ → List ℕ → List ℕ
  pub put : List ℕ → List ℕ → List ℕ
  -- `Bytes::split_off` (what stays, and what is split off) and `Buf::advance`.
  pub split_off : List ℕ → ℕ → Run (List ℕ × List ℕ)
  pub advance : List ℕ → ℕ → Run (List ℕ)
  -- `BufMut::put_u8`.
  pub put_u8 : List ℕ → ℕ → List ℕ
  -- `Buf::has_remaining`, `Buf::get_u8` and `Bytes::split_to` (what is split off, and what stays).
  pub has_remaining : List ℕ → Bool
  pub get_u8 : List ℕ → Run (ℕ × List ℕ)
  pub split_to : List ℕ → ℕ → Run (List ℕ × List ℕ)
  -- `Buf::remaining` and `Buf::get_u64`.
  pub remaining : List ℕ → ℕ
  pub get_u64 : List ℕ → Run (ℕ × List ℕ)
  pub read_u64_lem :
      (n : ℕ) (rest : List ℕ) → n < 2 ^ 64 → read_u64 (to_be_bytes 8 n ++ rest) ≡ done n
  pub read_u64_short : (bs : List ℕ) → length bs < 8 → read_u64 bs ≡ panic
  pub read_u32_lem :
      (n : ℕ) (rest : List ℕ) → n < 2 ^ 32 → read_u32 (to_be_bytes 4 n ++ rest) ≡ done n
  pub write_u32_lem :
      (a b c d n : ℕ) (rest : List ℕ)
      → n < 2 ^ 32
      → write_u32 (a ∷ b ∷ c ∷ d ∷ rest) n ≡ done (to_be_bytes 4 n ++ rest)
  pub put_u64_lem : (bs : List ℕ) (n : ℕ) → n < 2 ^ 64 → put_u64 bs n ≡ bs ++ to_be_bytes 8 n
  pub put_slice_lem : (bs cs : List ℕ) → put_slice bs cs ≡ bs ++ cs
  pub put_lem : (bs cs : List ℕ) → put bs cs ≡ bs ++ cs
  pub split_off_lem :
      (bs : List ℕ) (at : ℕ) → at ≤ length bs → split_off bs at ≡ done (take at bs, drop at bs)
  pub put_u8_lem : (bs : List ℕ) (x : ℕ) → x < 256 → put_u8 bs x ≡ bs ++ (x ∷ [])
  pub has_remaining_nil : has_remaining [] ≡ false
  pub has_remaining_cons : (x : ℕ) (bs : List ℕ) → has_remaining (x ∷ bs) ≡ true
  pub get_u8_nil : get_u8 [] ≡ panic
  pub get_u8_cons : (x : ℕ) (bs : List ℕ) → get_u8 (x ∷ bs) ≡ done (x, bs)
  pub split_to_lem :
      (bs : List ℕ) (at : ℕ) → at ≤ length bs → split_to bs at ≡ done (take at bs, drop at bs)
  pub split_to_panics : (bs : List ℕ) (at : ℕ) → length bs < at → split_to bs at ≡ panic
  pub advance_lem : (bs : List ℕ) (n : ℕ) → n ≤ length bs → advance bs n ≡ done (drop n bs)
  pub remaining_lem : (bs : List ℕ) → remaining bs ≡ length bs
  pub get_u64_lem :
      (n : ℕ) (rest : List ℕ) → n < 2 ^ 64 → get_u64 (to_be_bytes 8 n ++ rest) ≡ done (n, rest)

-- `x << k` and `x >> k` on a `u64`: a distance of 64 or more overflows.
abbrev pub shl : ℕ → ℕ → Run ℕ
shl x k = if ltb k 64 then done (u64 (x <<< k)) else panic

abbrev pub shr : ℕ → ℕ → Run ℕ
shr x k = if ltb k 64 then done (x >>> k) else panic

-- The slice `bs[at..]`.
abbrev pub slice_from : List ℕ → ℕ → Run (List ℕ)
slice_from bs at = if ltb (length bs) at then panic else done (drop at bs)

-- The slice `bs[lo..hi]`.
abbrev pub slice : List ℕ → ℕ → ℕ → Run (List ℕ)
slice bs lo hi =
    if ltb hi lo then panic else if ltb (length bs) hi then panic else done (drop lo (take hi bs))

-- An index into a slice.
abbrev pub byte_at : List ℕ → ℕ → Run ℕ
byte_at buf i = elim (get_elem? buf i) [ none ↦ panic | some x ↦ done x ]
