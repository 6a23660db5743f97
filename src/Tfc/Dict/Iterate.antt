-- ===== src/Tfc/Dict/Iterate.antt =====
-- The iterator of a dictionary.
use mathlib.Core.List.{map}
use tdb_succinct_wasm.Base.{
  ℕ, zero, suc, ◌+◌, ◌≤◌, ◌<◌, ◌≡◌, refl, sym, ap, ◌∙◌, inl, inr, Option, List, [], ◌∷◌, ◌++◌,
  length, drop, drop_all, leb, done, Bool-cases, arith,
}
use tdb_succinct_wasm.Words.{Buffers}
use tdb_succinct_wasm.Tfc.Entry.{SizedDictEntry, to_vec}
use tdb_succinct_wasm.Tfc.Block.{SizedDictBlock}
use tdb_succinct_wasm.Tfc.Block.Parse.{block_of}
use tdb_succinct_wasm.Tfc.Block.Strings.{block_of-Holds}
use tdb_succinct_wasm.Tfc.Block.Iterate.{collect-Holds}
use tdb_succinct_wasm.Tfc.Dict.{SizedDict, num_blocks, blocks_from, entries_of_blocks, iter}
use tdb_succinct_wasm.Tfc.Dict.Blocks.{block_at, strings_of, block_strings}
use tdb_succinct_wasm.Tfc.Dict.EntryOf.{Stores, num_blocks_lem, block_lem}

map-append : (xs ys : List SizedDictEntry) → map to_vec (xs ++ ys) ≡ map to_vec xs ++ map to_vec ys
map-append [] ys = refl
map-append (x ∷ xs) ys = ap (λ l. to_vec x ∷ l) (map-append xs ys)

strings_of-drop :
    (bs : List (List ℕ × List (List ℕ))) (i : ℕ)
    → i < length bs
    → strings_of (drop i bs) ≡ block_strings bs i ++ strings_of (drop (suc i) bs)
unfolding strings_of block_strings
strings_of-drop [] i h = absurd (omega arith)
strings_of-drop ((first, slices) ∷ bs) zero h = refl
strings_of-drop (b ∷ bs) (suc i) h = strings_of-drop bs i (omega arith)

module _ {io : Buffers} (size_of : ℕ) {rs : Option ℕ} {code : ℕ} {d : SizedDict}
    {bs : List (List ℕ × List (List ℕ))} (h : Stores io rs code d bs) where
  entries_from :
      (n i : ℕ)
      → i ≤ length bs
      → length bs < i + n
      → (blocks : List SizedDictBlock) × (entries : List SizedDictEntry) × (blocks_from io n d i
          ≡ done blocks)
        × (entries_of_blocks io size_of blocks ≡ done entries)
        × (map to_vec entries ≡ strings_of (drop i bs))
  unfolding blocks_from entries_of_blocks strings_of
  entries_from zero i within enough = absurd (omega (arith, within, enough))
  entries_from (suc n) i within enough = elim (Bool-cases (leb (num_blocks d) i)) [
    | inl t ↦
        let over : length bs ≤ i = ground (arith, t, num_blocks_lem h) in
        ([], [], rw t refl, refl, sym (ap strings_of (drop_all bs i over)))
    | inr f ↦
        let inside : i < length bs = ground (arith, f, num_blocks_lem h) in
        let a = block_at rs code bs i h.blocks inside in
        let count : length a.slices + 1 + 1 ≡ length (a.first ∷ a.slices) + 1 = omega arith in
        let step : i + 1 ≡ suc i = omega arith in
        let (blocks, entries, run, collected, held) =
          entries_from n (suc i) (omega arith) (omega (arith, enough)) in
        let (here, run', held') =
          collect-Holds io size_of (block_of-Holds a.first a.slices) (omega arith) in
        (
          block_of a.first a.slices ∷ blocks,
          here ++ entries,
          rw (f, step, block_lem h i inside, run) refl,
          rw (count, run', collected) refl,
          map-append here entries
              ∙ (λ j. held' j ++ held j)
              ∙ ap (λ ss. ss ++ strings_of (drop (suc i) bs)) (sym a.strings)
              ∙ sym (strings_of-drop bs i inside),
        )
  ]

  -- A dictionary over the bytes of some blocks of short strings, one or more and all full but the
  -- last, is iterated over without a panic: `iter` hands out as many entries as there are strings,
  -- with the strings' bytes, in their order.
  pub iter-Stores :
      (entries : List SizedDictEntry) × (iter io size_of d ≡ done entries)
      × (map to_vec entries ≡ strings_of bs)
  unfolding iter
  iter-Stores =
      let rounds : num_blocks d + 1 ≡ suc (num_blocks d) = omega arith in
      let (blocks, entries, run, collected, held) =
        entries_from (suc (num_blocks d)) 0 (omega arith) (omega (arith, num_blocks_lem h)) in
      (entries, rw (rounds, run, collected) refl, held)
