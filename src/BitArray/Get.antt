-- ===== src/BitArray/Get.antt =====
-- What a bit array holds, and `get` and `iter` on it.
use tdb_succinct_wasm.Base.{
  ℕ, zero, suc, ◌+◌, ◌-◌, ◌*◌, ◌/◌, ◌%◌, ◌≤◌, ◌<◌, ◌≡◌, refl, sym, ap, ◌∙◌, Bool, true, false, some,
  List, ◌++◌, length, get_or, get_or-drop, drop_all, get_elem?, drop, ltb, ◌==◌, not, if◌then◌else◌,
  All, done, arith,
}
use tdb_succinct_wasm.Bits.Digit.{bit}
use tdb_succinct_wasm.Words.{byte_at}
use tdb_succinct_wasm.Words.Stream.{IsWord, stream_bit, stream_bit_at, be_words}
use tdb_succinct_wasm.Words.Bytes.{byte_of, byte_mask, get_elem?-be_words}
use tdb_succinct_wasm.BitArray.{BitArray, get, iter_from, iter}

-- A truth value as a digit.
abbrev pub digit : Bool → ℕ
digit b = if b then 1 else 0

-- The ones among the first `n` bits of a list: the specification of the ranks.
unfoldable pub ones : List Bool → ℕ → ℕ
ones bs zero = 0
ones bs (suc n) = ones bs n + digit (get_or bs n false)

-- The array holds the bits `bs`, in the stream of the words `ws`.
pub record Represents (a : BitArray) (ws : List ℕ) (bs : List Bool) : Type 0 where
  pub tail : List ℕ
  pub buf : a.buf ≡ be_words ws ++ tail
  pub words : All IsWord ws
  pub len : a.len ≡ length bs
  pub room : a.len ≤ 64 * length ws
  pub holds : (i : ℕ) → i < a.len → stream_bit ws i ≡ digit (get_or bs i false)

digit_test : (b : Bool) (n : ℕ) → n ≡ digit b → not (n == 0) ≡ b
digit_test true n e = ground arith
digit_test false n e = ground arith

module _ {a : BitArray} {ws : List ℕ} {bs : List Bool} (rep : Represents a ws bs) where
  -- Reading within the length answers the bit that the array holds there.
  pub get-Represents : (i : ℕ) → i < a.len → get a i ≡ done (get_or bs i false)
  unfolding get
  get-Represents i h =
      let q = i / 64 in
      let r = i % 64 / 8 in
      let s = i % 8 in
      let asserted : ltb i a.len ≡ true = ground arith in
      let place : i / 8 ≡ 8 * q + r = omega arith in
      let byte : get_elem? a.buf (8 * q + r) ≡ some (byte_of (get_or ws q 0) r) =
        ap (λ b. get_elem? b (8 * q + r)) rep.buf
        ∙ get_elem?-be_words ws rep.tail q r (omega (arith, rep.room)) (omega arith) in
      let same : bit (get_or ws q 0) (63 - (8 * r + s)) ≡ digit (get_or bs i false) =
        sym (stream_bit_at ws i q (8 * r + s) (omega arith) (omega arith)) ∙ rep.holds i h in
      let read : byte_at a.buf (8 * q + r) ≡ done (byte_of (get_or ws q 0) r) =
        rw (byte, byte_at) in
      rw (asserted, place, read, byte_mask (get_or ws q 0) r s (omega arith) (omega arith))
        (ap done (digit_test (get_or bs i false) _ same))

  iter_from-Represents : (n i : ℕ) → i + n ≡ a.len → iter_from n a i ≡ done (drop i bs)
  unfolding iter_from
  iter_from-Represents zero i e = ap done (sym (drop_all bs i (omega (arith, rep.len))))
  iter_from-Represents (suc n) i e =
      rw
        (
          get-Represents i (omega arith),
          iter_from-Represents n (i + 1) (omega arith),
          get_or-drop bs i false (omega (arith, rep.len)),
        )
        refl

  -- `iter` hands out exactly the bits of the array, in order.
  pub iter-Represents : iter a ≡ done bs
  unfolding iter
  iter-Represents = iter_from-Represents a.len 0 (omega arith)
