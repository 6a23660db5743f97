-- ===== src/Tfc/Dict/Rounds.antt =====
-- The rounds of the search over the heads of a dictionary's blocks, and the order of its strings.
use Prim.Native.Nat.{Ordering}
use tdb_succinct_wasm.Base.{
  ℕ, zero, suc, ◌+◌, ◌-◌, ◌*◌, ◌/◌, ◌<◌, ◌≡◌, refl, ap, ◌∙◌, true, false, ◌⊎◌, inl, inr, Option,
  List, [], ◌∷◌, ◌++◌, length, leb, ltb, ◌==◌, if◌then◌else◌, Run, done, ok, Bool-cases, arith,
}
use tdb_succinct_wasm.Words.{Buffers}
use tdb_succinct_wasm.VByte.Encode.{groups}
use tdb_succinct_wasm.Util.Prefix.{lexicographic}
use tdb_succinct_wasm.Tfc.Entry.{join}
use mathlib.Core.List.{append_assoc}
use tdb_succinct_wasm.Tfc.IdLookup as IdLookup
use tdb_succinct_wasm.Tfc.IdLookup.{IdLookupResult, found}
use tdb_succinct_wasm.Tfc.Block as Block
use tdb_succinct_wasm.Tfc.Block.Build as Build
use tdb_succinct_wasm.Tfc.Block.Parse.{IsShort, decode_number_lem, split_to-append}
use tdb_succinct_wasm.Tfc.Block.Strings.{string_at}
use tdb_succinct_wasm.Tfc.Block.Search.{IsSorted}
use tdb_succinct_wasm.Tfc.Block.RoundTrip.{sorted-lexicographic}
use tdb_succinct_wasm.Tfc.Dict.{SizedDict, block_head, search_heads}

-- Each string is before all that come later.
unfoldable pub IsAscending : List (List ℕ) → Type 0
IsAscending strings =
    (i j : ℕ)
    → i < j
    → j < length strings
    → lexicographic (string_at strings i) (string_at strings j) ≡ Ordering.lt

IsSorted-tail :
    (first cur : List ℕ) (vals : List (List ℕ)) → IsSorted first (cur ∷ vals) → IsSorted cur vals
unfolding IsSorted
IsSorted-tail first cur vals sorted = sorted.1

pub IsSorted-IsAscending :
    (first : List ℕ) (vals : List (List ℕ)) → IsSorted first vals → IsAscending (first ∷ vals)
unfolding IsSorted IsAscending
IsSorted-IsAscending first vals sorted zero zero less inside = absurd (omega arith)
IsSorted-IsAscending first vals sorted zero (suc j) less inside =
    sorted-lexicographic first vals j sorted (omega arith)
IsSorted-IsAscending first vals sorted (suc i) zero less inside = absurd (omega arith)
IsSorted-IsAscending first [] sorted (suc i) (suc j) less inside = absurd (omega arith)
IsSorted-IsAscending first (cur ∷ vals) sorted (suc i) (suc j) less inside =
    IsSorted-IsAscending cur vals (IsSorted-tail first cur vals sorted) i j (omega arith)
      (omega arith)

-- Strings of which each is before the next one.
pub steps-IsSorted :
    (first : List ℕ) (vals : List (List ℕ))
    → ((i : ℕ)
        → suc i < length (first ∷ vals)
        → lexicographic (string_at (first ∷ vals) i) (string_at (first ∷ vals) (suc i))
          ≡ Ordering.lt)
    → IsSorted first vals
unfolding IsSorted
steps-IsSorted first [] steps = tt
steps-IsSorted first (cur ∷ vals) steps =
    (steps 0 (omega arith), steps-IsSorted cur vals (λ i h. steps (suc i) (omega arith)))

pub data Side (i j : ℕ) : Type 0 where
  below : i < j → Side i j
  same : i ≡ j → Side i j
  above : j < i → Side i j

pub side : (i j : ℕ) → Side i j
side i j = elim (Bool-cases (ltb i j)) [
  | inl t ↦ below (ground (arith, t))
  | inr f ↦ elim (Bool-cases (ltb j i)) [
    | inl t ↦ above (ground (arith, t))
    | inr f' ↦ same (ground (arith, f, f'))
  ]
]

-- The head of a block from its bytes.
pub block_head-bytes :
    (io : Buffers) (rs : Option ℕ) (cw : ℕ) (first : List ℕ) (slices : List (List ℕ))
    (behind : List ℕ)
    → IsShort first
    → Block.block_head io (Build.block_bytes rs cw first slices ++ behind) ≡ done (ok first)
unfolding Block.block_head Build.block_bytes
block_head-bytes io rs cw first slices behind short =
    let n = groups 9 (length first) in
    let rest =
      Build.table rs (Build.entries_of first slices)
      ++ join (Build.suffixes_of (Build.entries_of first slices)) in
    let cut =
      append_assoc n (first ++ rest) behind ∙ ap (λ l. n ++ l) (append_assoc first rest behind) in
    let past = io.advance_lem (cw ∷ (n ++ (first ++ (rest ++ behind)))) 1 (omega arith) in
    let sized =
      decode_number_lem io (length first) (first ++ (rest ++ behind)) (omega (arith, short)) in
    rw (cut, past, sized, split_to-append io first (rest ++ behind)) refl

-- The rounds of the search, by the order of the query and the head in the middle.
module _ (io : Buffers) (d : SizedDict) (query : List ℕ) (fuel min max : ℕ) where
  pub round_past : leb min max ≡ false → search_heads io (suc fuel) d query min max ≡ done (inr max)
  unfolding search_heads
  round_past f = rw f refl

  module _ (head : List ℕ) (t : leb min max ≡ true)
      (read : block_head io d ((min + max) / 2) ≡ done head) where
    abbrev by_order : Ordering → Run (IdLookupResult ⊎ ℕ)
    by_order o = elim o as (λ x. Run (IdLookupResult ⊎ ℕ)) [
      | Ordering.lt ↦
          if (min + max) / 2 == 0
          then done (inl IdLookup.not_found)
          else search_heads io fuel d query min ((min + max) / 2 - 1)
      | Ordering.gt ↦ search_heads io fuel d query ((min + max) / 2 + 1) max
      | Ordering.eq ↦ done (inl (found ((min + max) / 2 * 8 + 1)))
    ]

    round_lem : search_heads io (suc fuel) d query min max ≡ by_order (lexicographic query head)
    unfolding search_heads
    round_lem = rw (t, read) refl

    pub round_up :
        lexicographic query head ≡ Ordering.gt
        → search_heads io (suc fuel) d query min max
          ≡ search_heads io fuel d query ((min + max) / 2 + 1) max
    round_up o = round_lem ∙ ap by_order o

    pub round_here :
        lexicographic query head ≡ Ordering.eq
        → search_heads io (suc fuel) d query min max ≡ done (inl (found ((min + max) / 2 * 8 + 1)))
    round_here o = round_lem ∙ ap by_order o

    pub round_down :
        lexicographic query head ≡ Ordering.lt
        → 0 < (min + max) / 2
        → search_heads io (suc fuel) d query min max
          ≡ search_heads io fuel d query min ((min + max) / 2 - 1)
    round_down o more =
        let behind : ((min + max) / 2 == 0) ≡ false = ground (arith, more) in
        round_lem ∙ ap by_order o ∙ rw behind refl
