-- ===== src/Tests/Dicts.antt =====
-- A run of the builder of dictionaries, with ten strings in two blocks.
use tdb_succinct_wasm.Base.{
  refl, ℕ, ◌+◌, ◌^◌, ◌<◌, ◌≡◌, some, none, List, [], ◌∷◌, length, All, done, panic, ◌>>=◌, arith,
}
use tdb_succinct_wasm.LogArray.Late as Late
use tdb_succinct_wasm.LogArray.Late.{LateBuilder}
use tdb_succinct_wasm.VByte.Encode.{groups}
use tdb_succinct_wasm.Util.Prefix.{common}
use tdb_succinct_wasm.Tfc.Entry.{SizedDictEntry, to_vec, join}
use tdb_succinct_wasm.Tfc.Block.Build.{
  any_size, block_bytes, table, size_bytes, entries_of, suffixes_of,
}
use tdb_succinct_wasm.Tfc.Block.Parse.{IsShort, FitsRecord}
use tdb_succinct_wasm.Tfc.Block.Strings.{string_at}
use tdb_succinct_wasm.Tfc.Dict.{SizedDict, new, add_all, finalize, parse, num_entries, entry}
use tdb_succinct_wasm.Tfc.Dict.Blocks.{AreBlocks, data_of, strings_of}
use tdb_succinct_wasm.Tfc.Dict.Cutting.{blocks_behind, ends_from}
use tdb_succinct_wasm.Tfc.Dict.Adding.{finalize-add_all}
use tdb_succinct_wasm.Tfc.Dict.RoundTrip.{entry-finalize}
use tdb_succinct_wasm.Tfc.Dict.{id, iter}
use tdb_succinct_wasm.Tfc.Dict.Answers.{iter-finalize, id-finalize}
use tdb_succinct_wasm.Tfc.IdLookup.{found}
use tdb_succinct_wasm.Tfc.Block.Search.{IsSorted}
use tdb_succinct_wasm.Util.Prefix.{lexicographic}
use mathlib.Core.List.{map}
use tdb_succinct_wasm.Tests.Crates.{crates}

abbrev front : List ℕ
front = 97 ∷ []

abbrev others : List (List ℕ)
others =
    (97 ∷ 98 ∷ [])
    ∷ (97 ∷ 99 ∷ [])
    ∷ (98 ∷ [])
    ∷ (99 ∷ [])
    ∷ (100 ∷ [])
    ∷ (101 ∷ [])
    ∷ (102 ∷ [])
    ∷ (103 ∷ [])
    ∷ (103 ∷ 104 ∷ [])
    ∷ []

others-IsShort : All IsShort others
others-IsShort = (
  omega arith,
  (
    omega arith,
    (
      omega arith,
      (omega arith, (omega arith, (omega arith, (omega arith, (omega arith, (omega arith, tt)))))),
    ),
  ),
)

others-FitsRecord : FitsRecord none others
unfolding FitsRecord
others-FitsRecord = tt

few_bytes : length (data_of none 0 (blocks_behind [] (front ∷ others))) < 2 ^ 64
unfolding data_of blocks_behind block_bytes table size_bytes entries_of suffixes_of join common
    groups
few_bytes = omega arith

entry-finalize_example :
    (offsets : LateBuilder) × (data_bytes bytes : List ℕ) × (d : SizedDict) × ((add_all crates
          (new none 0 0 (Late.new []) [])
          (front ∷ others)
        >>= λ (ids, b). finalize crates b)
      ≡ done (offsets, data_bytes, length data_bytes, length (front ∷ others)))
    × (Late.finalize crates ((Late.pop offsets).1) ≡ done bytes)
    × (parse crates bytes data_bytes 0 ≡ done d)
    × (num_entries crates d ≡ done (length (front ∷ others)))
    × ((k : ℕ)
        → k < length (front ∷ others)
        → (e : SizedDictEntry) × (entry crates 32 d (k + 1) ≡ done (some e))
          × (to_vec e ≡ string_at (front ∷ others) k))
    × ((index : ℕ) → length (front ∷ others) < index → entry crates 32 d index ≡ done none)
    × (entry crates 32 d 0 ≡ panic)
entry-finalize_example =
    entry-finalize crates any_size 32 front others (omega arith) others-IsShort others-FitsRecord
      (omega arith) few_bytes

finalize-add_all_example :
    ((add_all crates (new none 0 0 (Late.new []) []) (front ∷ others) >>= λ (ids, b).
    finalize crates b)
      ≡ done (
        Late.push_vec (Late.new []) (ends_from none 0 0 (blocks_behind [] (front ∷ others))),
        data_of none 0 (blocks_behind [] (front ∷ others)),
        length (data_of none 0 (blocks_behind [] (front ∷ others))),
        length (front ∷ others),
      ))
    × (strings_of (blocks_behind [] (front ∷ others)) ≡ front ∷ others)
    × AreBlocks none (blocks_behind [] (front ∷ others))
finalize-add_all_example =
    finalize-add_all crates any_size [] front others (omega arith) others-IsShort others-FitsRecord
      (omega arith) few_bytes

others-IsSorted : IsSorted front others
unfolding IsSorted lexicographic
others-IsSorted = (refl, (refl, (refl, (refl, (refl, (refl, (refl, (refl, (refl, tt)))))))))

id-finalize_example :
    (offsets : LateBuilder) × (data_bytes bytes : List ℕ) × (d : SizedDict) × ((add_all crates
          (new none 0 0 (Late.new []) [])
          (front ∷ others)
        >>= λ (ids, b). finalize crates b)
      ≡ done (offsets, data_bytes, length data_bytes, length (front ∷ others)))
    × (Late.finalize crates ((Late.pop offsets).1) ≡ done bytes)
    × (parse crates bytes data_bytes 0 ≡ done d)
    × ((k : ℕ)
        → k < length (front ∷ others)
        → id crates d (string_at (front ∷ others) k) ≡ done (found (k + 1)))
id-finalize_example =
    id-finalize crates any_size front others others-IsSorted (omega arith) others-IsShort
      others-FitsRecord (omega arith) few_bytes

iter-finalize_example :
    (offsets : LateBuilder) × (data_bytes bytes : List ℕ) × (d : SizedDict) × (entries : List
      SizedDictEntry)
    × ((add_all crates (new none 0 0 (Late.new []) []) (front ∷ others) >>= λ (ids, b).
          finalize crates b)
        ≡ done (offsets, data_bytes, length data_bytes, length (front ∷ others)))
    × (Late.finalize crates ((Late.pop offsets).1) ≡ done bytes)
    × (parse crates bytes data_bytes 0 ≡ done d)
    × (iter crates 32 d ≡ done entries)
    × (map to_vec entries ≡ front ∷ others)
iter-finalize_example =
    iter-finalize crates any_size 32 front others (omega arith) others-IsShort others-FitsRecord
      (omega arith) few_bytes
