-- ===== src/Tfc/Block/Search.antt =====
-- `id` is a search that compares the strings themselves.
use Prim.Native.Nat.{Ordering}
use mathlib.Core.List.{append_assoc, append-nil}
use tdb_succinct_wasm.Base.{
  ℕ, zero, suc, ◌+◌, ◌-◌, ◌≤◌, ◌≡◌, refl, sym, ap, ◌∙◌, true, false, inl, inr, List, [], ◌∷◌, ◌++◌,
  length, length-append, drop, take-length, replicate, ltb, done, checked_sub_lem, Bool-cases,
  arith,
}
use tdb_succinct_wasm.Words.{slice, slice_from}
use tdb_succinct_wasm.Util.{find_common_prefix_ord}
use tdb_succinct_wasm.Util.Prefix.{lexicographic, common}
use tdb_succinct_wasm.Util.Prefix.Compare.{find_common_prefix_ord_lem}
use tdb_succinct_wasm.Util.Prefix.Shared.{
  lexicographic-shared_less, lexicographic-shared_more, lexicographic-shared_same,
}
use tdb_succinct_wasm.Tfc.Entry.{join}
use tdb_succinct_wasm.Tfc.IdLookup.{IdLookupResult, found, closest, not_found}
use tdb_succinct_wasm.Tfc.Block.{sizes_of, shareds_of}
use tdb_succinct_wasm.Tfc.Block.Build.{entries_of, suffixes_of, common-le}
use tdb_succinct_wasm.Tfc.Block.Parse.{numbers_of, block_of}
use tdb_succinct_wasm.Tfc.Block.Lookup.{id_loop, id}
use tdb_succinct_wasm.Tfc.Block.Strings.{slice-append}

-- An order with the equation that says which.
data ThreeWays (o : Ordering) : Type 0 where
  is_lt : o ≡ Ordering.lt → ThreeWays o
  is_eq : o ≡ Ordering.eq → ThreeWays o
  is_gt : o ≡ Ordering.gt → ThreeWays o

three_ways : (o : Ordering) → ThreeWays o
three_ways Ordering.lt = is_lt refl
three_ways Ordering.eq = is_eq refl
three_ways Ordering.gt = is_gt refl

-- Each string is before the next.
unfoldable pub IsSorted : List ℕ → List (List ℕ) → Type 0
IsSorted last [] = Unit {0}
IsSorted last (cur ∷ strings) = (lexicographic last cur ≡ Ordering.lt) × IsSorted cur strings

-- A search from a string on that is not beyond the query, comparing one string after the other.
unfoldable pub search_from : List ℕ → ℕ → List (List ℕ) → IdLookupResult
search_from query ix [] = closest ix
search_from query ix (cur ∷ strings) =
    let behind = search_from query (suc ix) strings in
    elim (lexicographic query cur) [
      | Ordering.eq ↦ found (suc ix)
      | Ordering.lt ↦ closest ix
      | Ordering.gt ↦ behind
    ]

unfoldable pub search_strings : List ℕ → List ℕ → List (List ℕ) → IdLookupResult
unfolding search_from
search_strings query first strings = elim (lexicographic query first) [
  | Ordering.eq ↦ found 0
  | Ordering.lt ↦ not_found
  | Ordering.gt ↦ search_from query 0 strings
]

slice_end :
    (data_bytes : List ℕ) → slice data_bytes (length data_bytes) (length data_bytes + 0) ≡ done []
slice_end data_bytes = rw (append-nil data_bytes) at (slice-append data_bytes [] [] 0 (omega arith))

pub slice_from_lem : (bs : List ℕ) (at : ℕ) → at ≤ length bs → slice_from bs at ≡ done (drop at bs)
slice_from_lem bs at h = let short : ltb (length bs) at ≡ false = ground arith in rw short refl

-- Past the last string the suffixes are empty: the answer is the last string.
id_loop_none :
    (k : ℕ) (data_bytes : List ℕ) (x : ℕ) (q : List ℕ) (last ix : ℕ)
    → id_loop data_bytes (x ∷ q) (last + 1) (replicate k 0) (replicate k 0) ix (length data_bytes) 0
      ≡ done (closest last)
unfolding id_loop lexicographic common
id_loop_none zero data_bytes x q last ix =
    let before = checked_sub_lem (last + 1) 1 (omega arith) in
    let same : last + 1 - 1 ≡ last = omega arith in rw (before, same) refl
id_loop_none (suc k) data_bytes x q last ix =
    let e : length data_bytes + 0 ≡ length data_bytes = omega arith in
    rw
      (
        slice_end data_bytes,
        slice_from_lem (x ∷ q) 0 (omega arith),
        find_common_prefix_ord_lem (x ∷ q) [],
        e,
      )
      (id_loop_none k data_bytes x q last (ix + 1))

id_loop_padding :
    (k : ℕ) (data_bytes : List ℕ) (x : ℕ) (q : List ℕ) (last shared_bytes : ℕ)
    → id_loop data_bytes
        (x ∷ q)
        (last + 1)
        (replicate k 0)
        (replicate k 0)
        last
        (length data_bytes)
        shared_bytes
      ≡ done (closest last)
unfolding id_loop
id_loop_padding k data_bytes x q last zero = id_loop_none k data_bytes x q last last
id_loop_padding zero data_bytes x q last (suc m) =
    let before = checked_sub_lem (last + 1) 1 (omega arith) in
    let same : last + 1 - 1 ≡ last = omega arith in rw (before, same) refl
id_loop_padding (suc k) data_bytes x q last (suc m) =
    let less : ltb 0 (suc m) ≡ true = ground arith in rw (slice_end data_bytes, less) refl

-- Where the next string shares as much as the query, what is behind decides.
behind_lem :
    (query last cur : List ℕ)
    → common query last ≡ common last cur
    → (slice_from query (common query last) ≡ done (drop (common query last) query))
      × (find_common_prefix_ord (drop (common query last) query) (drop (common last cur) cur)
          ≡ done (
            common (drop (common query last) query) (drop (common last cur) cur),
            lexicographic query cur,
          ))
      × (common query cur
          ≡ common query last
            + common (drop (common query last) query) (drop (common last cur) cur))
behind_lem query last cur same =
    let here = common query last in
    let (order, kept) = lexicographic-shared_same here query last cur refl same in
    let (le, _) = common-le query last in
    (
      slice_from_lem query here le,
      find_common_prefix_ord_lem (drop here query) (drop (common last cur) cur)
          ∙ ap (λ o. done (common (drop here query) (drop (common last cur) cur), o))
              (ap (λ n. lexicographic (drop here query) (drop n cur)) (sym same) ∙ sym order),
      kept ∙ ap (λ n. here + common (drop here query) (drop n cur)) same,
    )

id_loop_lem :
    (k : ℕ) (data_bytes : List ℕ) (x : ℕ) (q : List ℕ) (slices : List (List ℕ))
    (last before : List ℕ) (ix : ℕ)
    → data_bytes ≡ before ++ join (suffixes_of (entries_of last slices))
    → lexicographic (x ∷ q) last ≡ Ordering.gt
    → IsSorted last slices
    → id_loop data_bytes
        (x ∷ q)
        (ix + length slices + 1)
        (shareds_of (numbers_of (entries_of last slices)) ++ replicate k 0)
        (sizes_of (numbers_of (entries_of last slices)) ++ replicate k 0)
        ix
        (length before)
        (common (x ∷ q) last)
      ≡ done (search_from (x ∷ q) ix slices)
unfolding id_loop shareds_of sizes_of numbers_of entries_of suffixes_of join search_from IsSorted
id_loop_lem k data_bytes x q [] last before ix e greater sorted =
    let whole = e ∙ append-nil before in
    let count : ix + 0 + 1 ≡ ix + 1 = omega arith in
    rw (count, ap length (sym whole)) (id_loop_padding k data_bytes x q ix (common (x ∷ q) last))
id_loop_lem k data_bytes x q (cur ∷ slices) last before ix e greater (less, sorted) =
    let query = x ∷ q in
    let shared = common last cur in
    let here = common query last in
    let suffix = drop shared cur in
    let tail = join (suffixes_of (entries_of cur slices)) in
    let cut : slice data_bytes (length before) (length before + length suffix) ≡ done suffix =
      ap (λ d. slice d (length before) (length before + length suffix)) e
      ∙ slice-append before suffix tail (length suffix) (omega arith)
      ∙ ap done (take-length suffix) in
    let whole : data_bytes ≡ (before ++ suffix) ++ tail =
      e ∙ sym (append_assoc before suffix tail) in
    let at : length (before ++ suffix) ≡ length before + length suffix =
      length-append before suffix in
    let num : ix + 1 + length slices + 1 ≡ ix + suc (length slices) + 1 = omega arith in
    let next : (c : ℕ)
        → lexicographic query cur ≡ Ordering.gt
        → common query cur ≡ c
        → id_loop data_bytes query (ix + suc (length slices) + 1)
            (shareds_of (numbers_of (entries_of cur slices)) ++ replicate k 0)
            (sizes_of (numbers_of (entries_of cur slices)) ++ replicate k 0) (ix + 1)
            (length before + length suffix) c
          ≡ done (search_from query (suc ix) slices) =
      λ c g r.
        sym (λ j.
          id_loop data_bytes query (num j)
            (shareds_of (numbers_of (entries_of cur slices)) ++ replicate k 0)
            (sizes_of (numbers_of (entries_of cur slices)) ++ replicate k 0) (ix + 1) (at j) (r j))
        ∙ id_loop_lem k data_bytes x q slices cur (before ++ suffix) (ix + 1) whole g sorted
        ∙ ap (λ n. done (search_from query n slices)) (omega arith) in
    elim (Bool-cases (ltb shared here)) [
      | inl t ↦
          let order = lexicographic-shared_less query last cur less (ground (arith, t)) in
          rw (cut, t, order, search_from) refl
      | inr f ↦ elim (Bool-cases (ltb here shared)) [
        | inl t ↦
            let (order, kept) =
              lexicographic-shared_more query last cur greater (ground (arith, t)) in
            rw (cut, f, t, order, search_from) (next here order kept)
        | inr f' ↦
            let same : here ≡ shared = ground (arith, f, f') in
            let more = common (drop here query) (drop shared cur) in
            let (behind, compared, kept) = behind_lem query last cur same in
            elim (three_ways (lexicographic query cur)) [
              | is_eq g ↦
                  rw (cut, f, f', behind, compared, g, search_from)
                    (ap (λ n. done (found n)) (omega arith))
              | is_lt g ↦ rw (cut, f, f', behind, compared, g, search_from) refl
              | is_gt g ↦
                  rw (cut, f, f', behind, compared, g, search_from) (next (here + more) g kept)
            ]
      ]
    ]

length-shareds_of : (es : List (ℕ × ℕ)) → length (shareds_of es) ≡ length (sizes_of es)
unfolding shareds_of sizes_of
length-shareds_of [] = refl
length-shareds_of ((shared, size) ∷ es) = ap suc (length-shareds_of es)

-- The loop from the first string on.
id_loop-block_of :
    (query first : List ℕ) (slices : List (List ℕ))
    → lexicographic query first ≡ Ordering.gt
    → IsSorted first slices
    → (let b = block_of first slices in
        id_loop b.data_bytes query b.header.num_entries b.header.shareds b.header.sizes 0 0
          (common query first))
      ≡ done (search_from query 0 slices)
unfolding lexicographic
id_loop-block_of [] [] slices g sorted = absurd cc
id_loop-block_of [] (y ∷ first) slices g sorted = absurd cc
id_loop-block_of (x ∷ q) first slices g sorted =
    let es = numbers_of (entries_of first slices) in
    let k = 7 - length (sizes_of es) in
    let count : 0 + length slices + 1 ≡ length slices + 1 = omega arith in
    let pad : 7 - length (shareds_of es) ≡ k = ap (λ n. 7 - n) (length-shareds_of es) in
    rw pad (rw count at (id_loop_lem k _ x q slices first [] 0 refl g sorted))

-- For a block of byte strings, each before the next, `id` does not panic: it answers what a search
-- answers that compares the query with one string after the other.
pub id-search_strings :
    (query first : List ℕ) (slices : List (List ℕ))
    → IsSorted first slices
    → id (block_of first slices) query ≡ done (search_strings query first slices)
unfolding id search_strings
id-search_strings query first slices sorted =
    let compared = find_common_prefix_ord_lem query first in
    elim (three_ways (lexicographic query first)) [
      | is_eq g ↦ rw (compared, g, search_strings) refl
      | is_lt g ↦ rw (compared, g, search_strings) refl
      | is_gt g ↦ rw (compared, g, search_strings) (id_loop-block_of query first slices g sorted)
    ]
