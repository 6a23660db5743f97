-- ===== src/AdjacencyList/Builder/RoundTrip.antt =====
-- The finished buffers of an adjacency list hold the bits and the numbers of its pairs.
use tdb_succinct_wasm.Base.{
  ℕ, ◌+◌, ◌^◌, ◌<◌, ◌≡◌, refl, Bool, true, false, List, [], ◌∷◌, ◌++◌, length, length-append,
  get_or, ◌==◌, done, ok, arith,
}
use tdb_succinct_wasm.Words.{Buffers}
use tdb_succinct_wasm.LogArray as Log
use tdb_succinct_wasm.LogArray.{LogArray}
use tdb_succinct_wasm.LogArray.Entry.{entry-Represents}
use tdb_succinct_wasm.LogArray.Builder.Finalize as NumFinalize
use tdb_succinct_wasm.LogArray.RoundTrip.{array_of, parse-Data, Data-Represents}
use tdb_succinct_wasm.BitArray as Bit
use tdb_succinct_wasm.BitArray.{BitArray}
use tdb_succinct_wasm.BitArray.Get.{iter-Represents}
use tdb_succinct_wasm.BitArray.Builder as BitBuilder
use tdb_succinct_wasm.BitArray.Builder.Push as BitPush
use tdb_succinct_wasm.BitArray.Builder.RoundTrip.{
  finalize-Encodes, opened, from_bits-Data, opened-Represents,
}
use tdb_succinct_wasm.AdjacencyList.Builder.{UnindexedBuilder, finalize}
use tdb_succinct_wasm.AdjacencyList.Builder.Push.{IsBuilding}

-- A builder that took the bits `bs` and the numbers `vs`, one or more and fewer than 2 ^ 56, and
-- fewer than 2 ^ 64 - 1 bits, is finished without a panic. `from_bits` accepts the first buffer, and
-- its array hands out the bits and a last 1; `parse` accepts the second, and its array has the
-- length and at each index below it the number.
pub finalize-IsBuilding :
    (io : Buffers) {b : UnindexedBuilder} {bs : List Bool} {vs : List ℕ}
    → IsBuilding b bs vs
    → 0 < length vs
    → length vs < 2 ^ 56
    → length bs + 1 < 2 ^ 64
    → (bits nums : List ℕ) × (a : BitArray) × (la : LogArray) × (finalize io b ≡ done (bits, nums))
      × (Bit.from_bits io bits ≡ done (ok a))
      × (Bit.iter a ≡ done (bs ++ (true ∷ [])))
      × (Log.parse io nums ≡ done (ok la))
      × (la.len ≡ length vs)
      × ((i : ℕ) → i < length vs → Log.entry io la i ≡ done (get_or vs i 0))
unfolding finalize
finalize-IsBuilding io {b} {bs} {vs} h some_nums short_nums short_bits =
    let all_bits = bs ++ (true ∷ []) in
    let more : length all_bits < 2 ^ 64 = omega (arith, length-append bs (true ∷ [])) in
    let filled : (b.nums.count == 0) ≡ false = ground (arith, h.nums.count) in
    let (bit_bytes, written, d) = finalize-Encodes io (BitPush.push-Encodes io h.bits true) more in
    let (num_bytes, run, dn) = NumFinalize.finalize_lem io h.nums short_nums in
    let nums_tail = NumFinalize.header (length vs) b.nums.width in
    let w = b.nums.width in
    let rep = Data-Represents nums_tail dn h.nums.width_pos h.nums.width_le h.nums.small in
    (
      BitBuilder.finalize io (BitBuilder.push io b.bitarray true),
      num_bytes ++ nums_tail,
      opened io d more,
      array_of (num_bytes ++ nums_tail) (length vs) w,
      rw (run, filled) refl,
      rw written (from_bits-Data io d more),
      iter-Represents (opened-Represents io d more),
      parse-Data io w vs h.nums.width_pos h.nums.width_le h.nums.small short_nums dn,
      refl,
      λ i p. entry-Represents io rep i p,
    )
