-- ===== src/Tfc/Dict/Search.antt =====
-- `id` of a dictionary finds its strings.
use Prim.Native.Nat.{Ordering}
use tdb_succinct_wasm.Base.{
  ℕ, zero, suc, ◌+◌, ◌-◌, ◌*◌, ◌/◌, ◌%◌, ◌≤◌, ◌<◌, ◌≡◌, refl, sym, ap, ◌∙◌, ◌⊎◌, inl, inr, Option,
  List, ◌∷◌, length, drop, leb, ◌==◌, done, Bool-cases, arith,
}
use tdb_succinct_wasm.Words.{Buffers}
use tdb_succinct_wasm.Util.Prefix.{lexicographic}
use tdb_succinct_wasm.Util.Prefix.Order.{lexicographic_refl, lexicographic_swap}
use tdb_succinct_wasm.Tfc.IdLookup as IdLookup
use tdb_succinct_wasm.Tfc.IdLookup.{IdLookupResult, found}
use tdb_succinct_wasm.Tfc.Block.Parse.{block_of}
use tdb_succinct_wasm.Tfc.Block.Lookup as Lookup
use tdb_succinct_wasm.Tfc.Block.Strings.{string_at}
use tdb_succinct_wasm.Tfc.Block.RoundTrip.{id-found}
use tdb_succinct_wasm.Tfc.Dict.{SizedDict, block_head, search_heads, id}
use tdb_succinct_wasm.Tfc.Dict.Blocks.{
  block_at, start_of, strings_of, block_strings, string_at-strings_of, place_lem,
}
use tdb_succinct_wasm.Tfc.Dict.EntryOf.{Stores, full_data, block_bytes_lem, block_lem}
use tdb_succinct_wasm.Tfc.Dict.Rounds.{
  IsAscending, steps-IsSorted, below, same, above, side, block_head-bytes, round_past, round_up,
  round_here, round_down,
}

module _ {io : Buffers} {rs : Option ℕ} {code : ℕ} {d : SizedDict}
    {bs : List (List ℕ × List (List ℕ))} (h : Stores io rs code d bs)
    (up : IsAscending (strings_of bs)) where
  block_head_lem :
      (i : ℕ) (lt : i < length bs)
      → block_head io d i ≡ done ((block_at rs code bs i h.blocks lt).first)
  unfolding block_head
  block_head_lem i lt =
      let a = block_at rs code bs i h.blocks lt in
      let cut = ap (drop (start_of rs code bs i)) h.data_lem ∙ a.bytes in
      rw
        (
          block_bytes_lem h i lt,
          cut,
          block_head-bytes io rs (length a.slices + code) a.first a.slices a.behind a.short,
        )
        refl

  -- A block's strings among all of them.
  in_block :
      (i r : ℕ) (lt : i < length bs)
      → (let a = block_at rs code bs i h.blocks lt in
          r < length (a.first ∷ a.slices)
          → (8 * i + r < length (strings_of bs))
            × (string_at (a.first ∷ a.slices) r ≡ string_at (strings_of bs) (8 * i + r)))
  in_block i r lt small =
      let a = block_at rs code bs i h.blocks lt in
      let small' : r < length (block_strings bs i) = omega (arith, small, ap length a.strings) in
      let place = place_lem rs bs i r h.blocks lt small' in
      let short : r < 8 = omega (arith, small, a.few) in
      let (_, _, equal) = string_at-strings_of rs bs i r (8 * i + r) h.blocks short refl place in
      (place, ap (λ ss. string_at ss r) (sym a.strings) ∙ equal)

  module _ (k : ℕ) (inside : k < length (strings_of bs)) where
    query_order :
        (i : ℕ) (lt : i < length bs)
        → (let a = block_at rs code bs i h.blocks lt in
            let order = lexicographic (string_at (strings_of bs) k) a.first in
            (i < k / 8 → order ≡ Ordering.gt)
            × (i ≡ k / 8 → k % 8 ≡ 0 → order ≡ Ordering.eq)
            × (i ≡ k / 8 → 0 < k % 8 → order ≡ Ordering.gt)
            × (k / 8 < i → order ≡ Ordering.lt))
    unfolding IsAscending
    query_order i lt =
        let a = block_at rs code bs i h.blocks lt in
        let query = string_at (strings_of bs) k in
        let (place, equal) = in_block i 0 lt (omega arith) in
        let after : 8 * i + 0 < k → lexicographic query a.first ≡ Ordering.gt = λ less.
          ap (lexicographic query) equal
          ∙ lexicographic_swap (string_at (strings_of bs) (8 * i + 0)) query
              (up (8 * i + 0) k less inside) in
        (
          λ less. after (omega (arith, less)),
          λ here whole.
              (let at : 8 * i + 0 ≡ k = omega (arith, here, whole) in
                ap (lexicographic query) (equal ∙ ap (string_at (strings_of bs)) at)
                ∙ lexicographic_refl query),
          λ here more. after (omega (arith, here, more)),
          λ more. ap (lexicographic query) equal ∙ up k (8 * i + 0) (omega (arith, more)) place,
        )

    search_heads_lem :
        (fuel min max : ℕ)
        → min ≤ k / 8 + 1
        → k / 8 ≤ max
        → max < length bs
        → max + 1 < min + fuel
        → (search_heads io fuel d (string_at (strings_of bs) k) min max
            ≡ done (inl (found (k + 1))))
          ⊎ (search_heads io fuel d (string_at (strings_of bs) k) min max ≡ done (inr (k / 8)))
    search_heads_lem zero min max lo hi bound enough = absurd (omega (arith, lo, hi, enough))
    search_heads_lem (suc fuel) min max lo hi bound enough = elim (Bool-cases (leb min max)) [
      | inr f ↦
          let last : max ≡ k / 8 = ground (arith, f, lo, hi) in
          inr (
            round_past io d (string_at (strings_of bs) k) fuel min max f
            ∙ ap (λ n. done (inr n)) last)
      | inl t ↦
          let mid = (min + max) / 2 in
          let ordered : min ≤ max = ground (arith, t) in
          let lt : mid < length bs = omega (arith, ordered, bound) in
          let rounds = block_head_lem mid lt in
          let head = (block_at rs code bs mid h.blocks lt).first in
          let query = string_at (strings_of bs) k in
          let (before, here, within, beyond) = query_order mid lt in
          elim (side mid (k / 8)) [
            | below less ↦ rw (round_up io d query fuel min max head t rounds (before less)) (
                search_heads_lem fuel (mid + 1) max (omega (arith, less)) hi bound
                  (omega (arith, ordered, enough)))
            | above more ↦
                rw
                  (round_down io d query fuel min max head t rounds (beyond more)
                    (omega (arith, more)))
                  (search_heads_lem fuel min (mid - 1) lo (omega (arith, more))
                    (omega (arith, more, lt)) (omega (arith, more, ordered, enough)))
            | same e ↦ elim (Bool-cases (k % 8 == 0)) [
              | inl whole ↦
                  let rest : k % 8 ≡ 0 = ground (arith, whole) in
                  let place : mid * 8 + 1 ≡ k + 1 = omega (arith, e, rest) in
                  inl (
                    round_here io d query fuel min max head t rounds (here e rest)
                    ∙ ap (λ n. done (inl (found n))) place)
              | inr part ↦
                  rw
                    (round_up io d query fuel min max head t rounds
                      (within e (ground (arith, part))))
                    (search_heads_lem fuel (mid + 1) max (omega (arith, e)) hi bound
                      (omega (arith, ordered, enough)))
            ]
          ]
    ]

    -- In a dictionary over the bytes of some blocks of short strings, one or more and all full but the
    -- last, whose strings are each before all that come later, `id` of the k-th string is found, at
    -- k + 1.
    pub id-Stores : id io d (string_at (strings_of bs) k) ≡ done (found (k + 1))
    unfolding id IdLookup.offset IdLookup.default IsAscending
    id-Stores =
        let query = string_at (strings_of bs) k in
        let (lt, place, _) =
          string_at-strings_of rs bs (k / 8) (k % 8) k h.blocks (omega arith) (omega arith)
            inside in
        let a = block_at rs code bs (k / 8) h.blocks lt in
        let last = d.offsets.logarray.len in
        let searched =
          search_heads_lem (last + 2) 0 last (omega arith) (omega (arith, lt, h.count))
            (omega (arith, h.count)) (omega arith) in
        elim searched [
          | inl e ↦ rw (full_data h, e) refl
          | inr e ↦
              let small : k % 8 < length (a.first ∷ a.slices) =
                omega (arith, place, ap length a.strings) in
              let (_, equal) = in_block (k / 8) (k % 8) lt small in
              let whole : 8 * (k / 8) + k % 8 ≡ k = omega arith in
              let sorted = steps-IsSorted a.first a.slices (λ r more.
                let (_, left) = in_block (k / 8) r lt (omega (arith, more)) in
                let (fits, right) = in_block (k / 8) (suc r) lt more in
                rw (left, right) (up (8 * (k / 8) + r) (8 * (k / 8) + suc r) (omega arith) fits)) in
              let hit = id-found a.first a.slices (k % 8) sorted small in
              let hit' : Lookup.id (block_of a.first a.slices) query ≡ done (found (k % 8)) =
                ap (Lookup.id (block_of a.first a.slices))
                  (sym (equal ∙ ap (string_at (strings_of bs)) whole))
                ∙ hit in
              rw (full_data h, e, block_lem h (k / 8) lt, hit')
                (ap (λ n. done (found n)) (omega arith))
        ]
