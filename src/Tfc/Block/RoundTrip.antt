-- ===== src/Tfc/Block/RoundTrip.antt =====
-- A block from the strings to the bytes and back: what is built is parsed, and answers for each string.
use Prim.Native.Nat.{Ordering}
use tdb_succinct_wasm.Base.{
  ℕ, zero, suc, ◌+◌, ◌<◌, ◌≡◌, refl, ap, ◌∙◌, Option, List, [], ◌∷◌, ◌++◌, length, All, done, ok,
  arith,
}
use tdb_succinct_wasm.Words.{Buffers}
use tdb_succinct_wasm.Util.Prefix.{lexicographic}
use tdb_succinct_wasm.Util.Prefix.Order.{
  lexicographic_refl, lexicographic_swap, lexicographic_trans,
}
use tdb_succinct_wasm.Tfc.Entry.{SizedDictEntry, to_vec}
use tdb_succinct_wasm.Tfc.IdLookup.{found}
use tdb_succinct_wasm.Tfc.Block.{SizedDictBlock, build_block_unchecked, parse}
use tdb_succinct_wasm.Tfc.Block.Build.{RecordCode, IsSlice, block_bytes, build_block_unchecked_lem}
use tdb_succinct_wasm.Tfc.Block.Parse.{IsShort, FitsRecord, block_of, parse-block_bytes}
use tdb_succinct_wasm.Tfc.Block.Lookup.{entry, id}
use tdb_succinct_wasm.Tfc.Block.Strings.{string_at, block_of-Holds}
use tdb_succinct_wasm.Tfc.Block.EntryOf.{entry-Holds}
use tdb_succinct_wasm.Tfc.Block.Search.{IsSorted, search_from, search_strings, id-search_strings}

pub sorted-lexicographic :
    (last : List ℕ) (slices : List (List ℕ)) (i : ℕ)
    → IsSorted last slices
    → i < length slices
    → lexicographic last (string_at slices i) ≡ Ordering.lt
unfolding IsSorted
sorted-lexicographic last [] i sorted h = absurd (omega arith)
sorted-lexicographic last (cur ∷ slices) zero (less, sorted) h = less
sorted-lexicographic last (cur ∷ slices) (suc i) (less, sorted) h =
    lexicographic_trans last cur (string_at slices i) less
      (sorted-lexicographic cur slices i sorted (omega arith))

search_from-found :
    (last : List ℕ) (slices : List (List ℕ)) (ix i : ℕ)
    → IsSorted last slices
    → i < length slices
    → search_from (string_at slices i) ix slices ≡ found (ix + suc i)
unfolding IsSorted search_from
search_from-found last [] ix i sorted h = absurd (omega arith)
search_from-found last (cur ∷ slices) ix zero sorted h =
    rw (lexicographic_refl cur, search_from) (ap found (omega arith))
search_from-found last (cur ∷ slices) ix (suc i) (less, sorted) h =
    let beyond =
      lexicographic_swap cur (string_at slices i)
        (sorted-lexicographic cur slices i sorted (omega arith)) in
    rw (beyond, search_from)
      (search_from-found cur slices (suc ix) i sorted (omega arith) ∙ ap found (omega arith))

search_strings-found :
    (first : List ℕ) (slices : List (List ℕ)) (i : ℕ)
    → IsSorted first slices
    → i < length (first ∷ slices)
    → search_strings (string_at (first ∷ slices) i) first slices ≡ found i
unfolding search_strings
search_strings-found first slices zero sorted h = rw (lexicographic_refl first, search_strings) refl
search_strings-found first slices (suc i) sorted h =
    let beyond =
      lexicographic_swap first (string_at slices i)
        (sorted-lexicographic first slices i sorted (omega arith)) in
    rw (beyond, search_strings)
      (search_from-found first slices 0 i sorted (omega arith) ∙ ap found (omega arith))

pub id-found :
    (first : List ℕ) (slices : List (List ℕ)) (i : ℕ)
    → IsSorted first slices
    → i < length (first ∷ slices)
    → id (block_of first slices) (string_at (first ∷ slices) i) ≡ done (found i)
id-found first slices i sorted h =
    id-search_strings (string_at (first ∷ slices) i) first slices sorted
    ∙ ap done (search_strings-found first slices i sorted h)

-- In a block of byte strings, each before the next, the index of a string leads to its bytes by
-- `entry`, and its bytes lead back to the index by `id`.
pub entry-id :
    (size_of : ℕ) (first : List ℕ) (slices : List (List ℕ)) (i : ℕ)
    → IsSorted first slices
    → i < length (first ∷ slices)
    → (e : SizedDictEntry) × (entry size_of (block_of first slices) i ≡ done e)
      × (to_vec e ≡ string_at (first ∷ slices) i)
      × (id (block_of first slices) (to_vec e) ≡ done (found i))
entry-id size_of first slices i sorted h =
    let (e, run, bytes) = entry-Holds size_of i (block_of-Holds first slices) h in
    (e, run, bytes, ap (id (block_of first slices)) bytes ∙ id-found first slices i sorted h)

pub IsShort-IsSlice : (slices : List (List ℕ)) → All IsShort slices → All IsSlice slices
IsShort-IsSlice [] h = tt
IsShort-IsSlice (s ∷ slices) (h, hs) = (omega arith, IsShort-IsSlice slices hs)

module _ (io : Buffers) where
  -- One to eight strings of fewer than 2 ^ 60 bytes, of the record size where there is one:
  -- `build_block_unchecked` writes bytes that `parse` reads back, whatever follows them, to a block
  -- whose `entry` at each index has the string of that index.
  pub build_block_unchecked-entry :
      {rs : Option ℕ} {code : ℕ} (size_of : ℕ) (buf first : List ℕ) (slices : List (List ℕ))
      (rest : List ℕ) (i : ℕ)
      → RecordCode rs code
      → length slices < 8
      → IsShort first
      → All IsShort slices
      → FitsRecord rs slices
      → i < length (first ∷ slices)
      → (bytes : List ℕ) × (b : SizedDictBlock) × (e : SizedDictEntry) × (build_block_unchecked io
            rs buf
            (first ∷ slices)
          ≡ done (buf ++ bytes, length bytes))
        × (parse io (bytes ++ rest) ≡ done (ok (b, rest)))
        × (entry size_of b i ≡ done e)
        × (to_vec e ≡ string_at (first ∷ slices) i)
  build_block_unchecked-entry {rs} {code} size_of buf first slices rest i c few h hs fits inside =
      let (e, run, bytes) = entry-Holds size_of i (block_of-Holds first slices) inside in
      (
        block_bytes rs (length slices + code) first slices,
        block_of first slices,
        e,
        build_block_unchecked_lem io buf first slices c few (omega arith)
            (IsShort-IsSlice slices hs),
        parse-block_bytes io first slices rest c few h hs fits,
        run,
        bytes,
      )
