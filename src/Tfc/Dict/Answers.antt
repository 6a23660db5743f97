-- ===== src/Tfc/Dict/Answers.antt =====
-- The iterator and the search of a dictionary that was written and opened again.
use mathlib.Core.List.{map}
use tdb_succinct_wasm.Tfc.Dict.Iterate.{iter-Stores}
use tdb_succinct_wasm.Base.{
  sym, ap, ℕ, ◌+◌, ◌^◌, ◌<◌, ◌≡◌, ◌∙◌, Option, List, [], ◌∷◌, length, All, done, ◌>>=◌, arith,
}
use tdb_succinct_wasm.Words.{Buffers}
use tdb_succinct_wasm.LogArray.Late as Late
use tdb_succinct_wasm.LogArray.Late.{LateBuilder}
use tdb_succinct_wasm.Tfc.Entry.{SizedDictEntry, to_vec}
use tdb_succinct_wasm.Tfc.Block.Build.{RecordCode}
use tdb_succinct_wasm.Tfc.Block.Parse.{IsShort, FitsRecord}
use tdb_succinct_wasm.Tfc.Block.Strings.{string_at}
use tdb_succinct_wasm.Tfc.Dict.{SizedDict, new, add_all, finalize, parse, iter}
use tdb_succinct_wasm.Tfc.Dict.Blocks.{data_of, strings_of}
use tdb_succinct_wasm.Tfc.Dict.Cutting.{blocks_behind}
use tdb_succinct_wasm.Tfc.IdLookup.{found}
use tdb_succinct_wasm.Tfc.Block.Search.{IsSorted}
use tdb_succinct_wasm.Tfc.Dict.{id}
use tdb_succinct_wasm.Tfc.Dict.Rounds.{IsAscending, IsSorted-IsAscending}
use tdb_succinct_wasm.Tfc.Dict.Search.{id-Stores}
use tdb_succinct_wasm.Tfc.Dict.RoundTrip.{stored_lem}

module _ (io : Buffers) {rs : Option ℕ} {code : ℕ} (coded : RecordCode rs code) where
  -- Strings of fewer than 2 ^ 60 bytes, one or more and fewer than 2 ^ 56, of the record size where
  -- there is one, and whose blocks have fewer than 2 ^ 64 bytes, are written without a panic by
  -- `add_all`, `finalize` and the array of the offsets without the last; `parse` opens a dictionary
  -- whose `iter` hands out as many entries as there are strings, with the strings' bytes, in their
  -- order.
  pub iter-finalize :
      (size_of : ℕ) (first : List ℕ) (vals : List (List ℕ))
      → IsShort first
      → All IsShort vals
      → FitsRecord rs vals
      → length (first ∷ vals) < 2 ^ 56
      → length (data_of rs code (blocks_behind [] (first ∷ vals))) < 2 ^ 64
      → (offsets : LateBuilder) × (data_bytes bytes : List ℕ) × (d : SizedDict) × (entries : List
          SizedDictEntry)
        × ((add_all io (new rs 0 0 (Late.new []) []) (first ∷ vals) >>= λ (ids, b). finalize io b)
            ≡ done (offsets, data_bytes, length data_bytes, length (first ∷ vals)))
        × (Late.finalize io ((Late.pop offsets).1) ≡ done bytes)
        × (parse io bytes data_bytes 0 ≡ done d)
        × (iter io size_of d ≡ done entries)
        × (map to_vec entries ≡ first ∷ vals)
  iter-finalize size_of first vals hf hv fits few room =
      let (offsets, data_bytes, bytes, d, bs, run, closed, opened, stores, strings) =
        stored_lem io coded first vals hf hv fits few room in
      let (entries, all, held) = iter-Stores size_of stores in
      (offsets, data_bytes, bytes, d, entries, run, closed, opened, all, held ∙ strings)

  -- Strings of fewer than 2 ^ 60 bytes, each before the next, one or more and fewer than 2 ^ 56, of
  -- the record size where there is one, and whose blocks have fewer than 2 ^ 64 bytes, are written
  -- without a panic by `add_all`, `finalize` and the array of the offsets without the last; `parse`
  -- opens a dictionary whose `id` finds the k-th string, from 0, at k + 1.
  pub id-finalize :
      (first : List ℕ) (vals : List (List ℕ))
      → IsSorted first vals
      → IsShort first
      → All IsShort vals
      → FitsRecord rs vals
      → length (first ∷ vals) < 2 ^ 56
      → length (data_of rs code (blocks_behind [] (first ∷ vals))) < 2 ^ 64
      → (offsets : LateBuilder) × (data_bytes bytes : List ℕ) × (d : SizedDict) × ((add_all io
              (new rs 0 0 (Late.new []) [])
              (first ∷ vals)
            >>= λ (ids, b). finalize io b)
          ≡ done (offsets, data_bytes, length data_bytes, length (first ∷ vals)))
        × (Late.finalize io ((Late.pop offsets).1) ≡ done bytes)
        × (parse io bytes data_bytes 0 ≡ done d)
        × ((k : ℕ)
            → k < length (first ∷ vals)
            → id io d (string_at (first ∷ vals) k) ≡ done (found (k + 1)))
  id-finalize first vals sorted hf hv fits few room =
      let (offsets, data_bytes, bytes, d, bs, run, closed, opened, stores, strings) =
        stored_lem io coded first vals hf hv fits few room in
      let up : IsAscending (strings_of bs) = rw strings (IsSorted-IsAscending first vals sorted) in
      (
        offsets,
        data_bytes,
        bytes,
        d,
        run,
        closed,
        opened,
        λ k inside.
            (let inside' : k < length (strings_of bs) = omega (arith, inside, ap length strings) in
              ap (λ ss. id io d (string_at ss k)) (sym strings) ∙ id-Stores stores up k inside'),
      )
