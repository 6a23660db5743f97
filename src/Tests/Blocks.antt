-- ===== src/Tests/Blocks.antt =====
-- Runs of the dictionary blocks.
use mathlib.Core.List.{map}
use tdb_succinct_wasm.Base.{ℕ, ◌+◌, ◌≡◌, refl, none, List, [], ◌∷◌, ◌++◌, length, done, ok, arith}
use tdb_succinct_wasm.Tfc.Entry.{SizedDictEntry, to_vec}
use tdb_succinct_wasm.Tfc.IdLookup.{found}
use tdb_succinct_wasm.Util.Prefix.{lexicographic}
use tdb_succinct_wasm.Tfc.Block.{SizedDictBlock, build_block_unchecked, parse}
use tdb_succinct_wasm.Tfc.Block.Build.{any_size, block_bytes, build_block_unchecked_lem}
use tdb_succinct_wasm.Tfc.Block.Parse.{FitsRecord, block_of, parse-block_bytes}
use tdb_succinct_wasm.Tfc.Block.Lookup.{entry, id, iter, collect}
use tdb_succinct_wasm.Tfc.Block.Strings.{string_at, block_of-Holds}
use tdb_succinct_wasm.Tfc.Block.EntryOf.{entry-Holds}
use tdb_succinct_wasm.Tfc.Block.Search.{IsSorted, search_strings, id-search_strings}
use tdb_succinct_wasm.Tfc.Block.RoundTrip.{entry-id, build_block_unchecked-entry}
use tdb_succinct_wasm.Tfc.Block.Iterate.{collect-Holds}
use tdb_succinct_wasm.Tests.Crates.{crates}

abbrev head_word : List ℕ
head_word = 97 ∷ 98 ∷ []

-- Words that share a prefix with the one before, one that shares less, and one that shares none.
abbrev words : List (List ℕ)
words = (97 ∷ 98 ∷ 99 ∷ []) ∷ (97 ∷ 98 ∷ 99 ∷ 100 ∷ []) ∷ (97 ∷ 99 ∷ []) ∷ (98 ∷ []) ∷ []

words-FitsRecord : FitsRecord none words
unfolding FitsRecord
words-FitsRecord = tt

words-IsSorted : IsSorted head_word words
unfolding IsSorted lexicographic
words-IsSorted = (refl, (refl, (refl, (refl, tt))))

build_block_unchecked_lem_example :
    build_block_unchecked crates none (7 ∷ []) (head_word ∷ words)
    ≡ done (
      (7 ∷ []) ++ block_bytes none (length words + 0) head_word words,
      length (block_bytes none (length words + 0) head_word words),
    )
build_block_unchecked_lem_example =
    build_block_unchecked_lem crates (7 ∷ []) head_word words any_size (omega arith) (omega arith)
      (omega arith, (omega arith, (omega arith, (omega arith, tt))))

parse-block_bytes_example :
    parse crates (block_bytes none (length words + 0) head_word words ++ (5 ∷ []))
    ≡ done (ok (block_of head_word words, 5 ∷ []))
parse-block_bytes_example =
    parse-block_bytes crates head_word words (5 ∷ []) any_size (omega arith) (omega arith)
      (omega arith, (omega arith, (omega arith, (omega arith, tt)))) words-FitsRecord

build_block_unchecked-entry_example :
    (bytes : List ℕ) × (b : SizedDictBlock) × (e : SizedDictEntry) × (build_block_unchecked crates
        none
        (7 ∷ [])
        (head_word ∷ words)
      ≡ done ((7 ∷ []) ++ bytes, length bytes))
    × (parse crates (bytes ++ (5 ∷ [])) ≡ done (ok (b, 5 ∷ [])))
    × (entry 32 b 2 ≡ done e)
    × (to_vec e ≡ string_at (head_word ∷ words) 2)
build_block_unchecked-entry_example =
    build_block_unchecked-entry crates 32 (7 ∷ []) head_word words (5 ∷ []) 2 any_size (omega arith)
      (omega arith) (omega arith, (omega arith, (omega arith, (omega arith, tt)))) words-FitsRecord
      (omega arith)

entry-Holds_example :
    (e : SizedDictEntry) × (entry 32 (block_of head_word words) 3 ≡ done e)
    × (to_vec e ≡ string_at (head_word ∷ words) 3)
entry-Holds_example = entry-Holds 32 3 (block_of-Holds head_word words) (omega arith)

id-search_strings_example :
    id (block_of head_word words) (97 ∷ 98 ∷ 100 ∷ [])
    ≡ done (search_strings (97 ∷ 98 ∷ 100 ∷ []) head_word words)
id-search_strings_example = id-search_strings (97 ∷ 98 ∷ 100 ∷ []) head_word words words-IsSorted

entry-id_example :
    (e : SizedDictEntry) × (entry 32 (block_of head_word words) 2 ≡ done e)
    × (to_vec e ≡ string_at (head_word ∷ words) 2)
    × (id (block_of head_word words) (to_vec e) ≡ done (found 2))
entry-id_example = entry-id 32 head_word words 2 words-IsSorted (omega arith)

collect-Holds_example :
    (entries : List SizedDictEntry) × (collect crates 32
        (length (head_word ∷ words) + 1)
        (iter (block_of head_word words))
      ≡ done entries)
    × (map to_vec entries ≡ head_word ∷ words)
collect-Holds_example = collect-Holds crates 32 (block_of-Holds head_word words) (omega arith)
