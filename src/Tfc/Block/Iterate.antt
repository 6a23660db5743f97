-- ===== src/Tfc/Block/Iterate.antt =====
-- The iterator of a block.
use mathlib.Core.List.{append-nil, map}
use tdb_succinct_wasm.Base.{
  ℕ, zero, suc, ◌+◌, ◌-◌, ◌≤◌, ◌<◌, ◌≡◌, refl, sym, ap, ◌∙◌, true, false, inl, inr, some, List, [],
  ◌∷◌, ◌++◌, length, take, drop, length-drop, drop-drop, drop-take_add, take-append_le,
  take-append_ge, take-length, take_append_drop, get_or-drop, drop_all, ltb, done, checked_sub_lem,
  Bool-cases, arith,
}
use tdb_succinct_wasm.Words.{Buffers, slice}
use tdb_succinct_wasm.BitIndex.Build.{sum}
use tdb_succinct_wasm.Tfc.Entry.{SizedDictEntry, join, to_vec, new_optimized}
use tdb_succinct_wasm.Tfc.Block.{SizedDictBlock}
use tdb_succinct_wasm.Tfc.Block.Lookup.{SizedBlockIterator, iter, truncate_rope, next, collect}
use tdb_succinct_wasm.Tfc.Block.Strings.{string_at, shared_at, suffix_at, offset_at, Holds}
use tdb_succinct_wasm.Tfc.Block.Chain.{take-common}
use tdb_succinct_wasm.Tfc.Block.EntryOf.{sum-take, new_optimized-to_vec, join-append}

-- What the iterator keeps of the pieces is a prefix of the string.
join-truncate_rope :
    (shared : ℕ) (parts : List (List ℕ))
    → join (truncate_rope shared parts) ≡ take shared (join parts)
unfolding truncate_rope join
join-truncate_rope zero [] = refl
join-truncate_rope (suc shared) [] = refl
join-truncate_rope shared (x ∷ xs) = elim (Bool-cases (ltb (length x) shared)) [
  | inl t ↦ rw t (
      ap (λ l. x ++ l) (join-truncate_rope (shared - length x) xs)
      ∙ sym (take-append_ge x (join xs) shared (ground (arith, t))))
  | inr f ↦
      rw f
        (append-nil (take shared x) ∙ sym (take-append_le shared x (join xs) (ground (arith, f))))
]

-- A slice that does not panic is inside.
slice-eq-done :
    (bs : List ℕ) (lo k : ℕ) (part : List ℕ)
    → slice bs lo (lo + k) ≡ done part
    → (lo + k ≤ length bs) × (take k (drop lo bs) ≡ part)
slice-eq-done bs lo k part h =
    let low : ltb (lo + k) lo ≡ false = ground arith in
    elim (Bool-cases (ltb (length bs) (lo + k))) [
      | inl t ↦ let h' = rw (low, t) at h in absurd cc
      | inr f ↦ (ground (arith, f), sym (drop-take_add lo k bs) ∙ (let h' = rw (low, f) at h in cc))
    ]

module _ (io : Buffers) (size_of : ℕ) {b : SizedDictBlock} {strings : List (List ℕ)}
    (h : Holds b strings) where
  -- The iterator behind the string of an index, with pieces that make up that string.
  abbrev at : ℕ → List (List ℕ) → SizedBlockIterator
  at i parts = record {
    header = b.header;
    data_bytes = drop (offset_at b i) b.data_bytes;
    ix = i;
    last = some parts;
  }

  next-some :
      (i : ℕ) (parts : List (List ℕ))
      → suc i < length strings
      → join parts ≡ string_at strings i
      → (parts' : List (List ℕ)) × (join parts' ≡ string_at strings (suc i))
        × (next io size_of (at i parts)
            ≡ done (some (new_optimized size_of parts', at (suc i) parts')))
  unfolding next suffix_at shared_at join new_optimized
  next-some i parts inside held =
      let shared = shared_at strings (suc i) in
      let suffix = suffix_at strings (suc i) in
      let size = length suffix in
      let (fits, cut) =
        slice-eq-done b.data_bytes (offset_at b i) size _ (h.piece i size inside (omega arith)) in
      let entries = checked_sub_lem b.header.num_entries 1 (omega (arith, h.count, inside)) in
      let more : ltb i (b.header.num_entries - 1) ≡ true = ground (arith, h.count, inside) in
      let split =
        io.split_to_lem (drop (offset_at b i) b.data_bytes) size
          (omega (arith, fits, length-drop (offset_at b i) b.data_bytes)) in
      let whole = cut ∙ take-length suffix in
      let behind =
        drop-drop (offset_at b i) size b.data_bytes
        ∙ ap (λ o. drop o b.data_bytes) (sum-take b.header.sizes i size (h.size i inside)) in
      let step : i + 1 ≡ suc i = omega arith in
      let parts' = truncate_rope shared parts ++ (suffix ∷ []) in
      let joined =
        join-append (truncate_rope shared parts) (suffix ∷ [])
        ∙ ap (λ l. l ++ (suffix ++ []))
            (join-truncate_rope shared parts
              ∙ ap (take shared) held
              ∙ take-common (string_at strings i) (string_at strings (suc i)))
        ∙ ap (λ l. take shared (string_at strings (suc i)) ++ l) (append-nil suffix)
        ∙ take_append_drop shared (string_at strings (suc i)) in
      (
        parts',
        joined,
        rw (entries, more, h.size i inside, h.shared i inside, split, whole, behind, step) refl,
      )

  collect_lem :
      (fuel i : ℕ) (parts : List (List ℕ))
      → i < length strings
      → length strings ≤ i + fuel
      → join parts ≡ string_at strings i
      → (entries : List SizedDictEntry) × (collect io size_of fuel (at i parts) ≡ done entries)
        × (map to_vec entries ≡ drop (suc i) strings)
  unfolding collect next
  collect_lem zero i parts inside enough held = absurd (omega (arith, inside, enough))
  collect_lem (suc fuel) i parts inside enough held =
      elim (Bool-cases (ltb (suc i) (length strings))) [
        | inl t ↦
            let inside' : suc i < length strings = ground (arith, t) in
            let (parts', held', run) = next-some i parts inside' held in
            let (entries, rest, strings') =
              collect_lem fuel (suc i) parts' inside' (omega (arith, enough)) held' in
            let step : suc i + 1 ≡ suc (suc i) = omega arith in
            let next_string =
              get_or-drop strings (suc i) [] inside'
              ∙ ap (λ k. string_at strings (suc i) ∷ drop k strings) step in
            (
              new_optimized size_of parts' ∷ entries,
              rw (run, rest) refl,
              (λ j. (new_optimized-to_vec size_of parts' ∙ held') j ∷ strings' j) ∙ sym next_string,
            )
        | inr f ↦
            let entries = checked_sub_lem b.header.num_entries 1 (omega (arith, h.count, inside)) in
            let over : ltb i (b.header.num_entries - 1) ≡ false =
              ground (arith, h.count, inside, f) in
            ([], rw (entries, over) refl, sym (drop_all strings (suc i) (ground (arith, f))))
      ]

  -- In a block that holds some strings, the iterator ends without a panic after as many entries as
  -- there are strings: the entries have the strings' bytes, in their order.
  pub collect-Holds :
      0 < length strings
      → (entries : List SizedDictEntry) × (collect io size_of (length strings + 1) (iter b)
          ≡ done entries)
        × (map to_vec entries ≡ strings)
  unfolding collect next iter join sum
  collect-Holds filled =
      let fuel : length strings + 1 ≡ suc (length strings) = omega arith in
      let parts = b.header.head ∷ [] in
      let (entries, run, rest) =
        collect_lem (length strings) 0 parts filled (omega arith)
          (append-nil b.header.head ∙ h.head) in
      let all : drop 0 strings ≡ string_at strings 0 ∷ drop 1 strings =
        get_or-drop strings 0 [] filled in
      (
        new_optimized size_of parts ∷ entries,
        rw (fuel, run) refl,
        (λ j. (new_optimized-to_vec size_of parts ∙ append-nil b.header.head ∙ h.head) j ∷ rest j)
            ∙ sym all,
      )
