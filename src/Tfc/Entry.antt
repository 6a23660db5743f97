-- ===== src/Tfc/Entry.antt =====
-- tfc/block.rs: `SizedDictEntry`, a byte string in one piece or in several.
use Prim.Native.Nat.{compare, Ordering}
use tdb_succinct_wasm.Base.{
  ℕ, zero, suc, ◌+◌, ◌*◌, Bool, true, false, ◌&&◌, List, [], ◌∷◌, ◌++◌, length, take, drop, ltb,
  ◌==◌, if◌then◌else◌, Run, done, panic, ◌>>=◌,
}
use tdb_succinct_wasm.Util.Prefix.{lexicographic}

pub data SizedDictEntry : Type 0 where
  single : List ℕ → SizedDictEntry
  rope : List (List ℕ) → SizedDictEntry

-- All the bytes of several pieces.
unfoldable pub join : List (List ℕ) → List ℕ
join [] = []
join (part ∷ parts) = part ++ join parts

unfoldable pub chunks : SizedDictEntry → List (List ℕ)
chunks (single b) = b ∷ []
chunks (rope v) = v

unfoldable pub to_bytes : SizedDictEntry → List ℕ
unfolding join
to_bytes (single b) = b
to_bytes (rope []) = []
to_bytes (rope (part ∷ [])) = part
to_bytes (rope (part ∷ next ∷ parts)) = join (part ∷ next ∷ parts)

unfoldable pub to_vec : SizedDictEntry → List ℕ
unfolding join chunks
to_vec e = join (chunks e)

-- The sum of the lengths of the pieces.
unfoldable pub total : List (List ℕ) → ℕ
total [] = 0
total (part ∷ parts) = length part + total parts

unfoldable pub len : SizedDictEntry → ℕ
unfolding total chunks
len e = total (chunks e)

unfoldable pub rope_len : SizedDictEntry → ℕ
rope_len (single b) = 1
rope_len (rope v) = length v

-- `optimize`, where `size_of` is the size of the crate's `Bytes`.
unfoldable pub optimize : ℕ → SizedDictEntry → SizedDictEntry
unfolding len rope_len join chunks
optimize size_of e =
    if ltb (size_of + len e) (size_of * rope_len e) then single (join (chunks e)) else e

unfoldable pub new_optimized : ℕ → List (List ℕ) → SizedDictEntry
unfolding optimize
new_optimized size_of parts = optimize size_of (rope parts)

-- The loop of `cmp`: the pieces at hand and those behind them. Each round ends a piece of one side
-- or the other, so a fuel above the number of pieces is enough.
unfoldable pub cmp_loop : ℕ → List ℕ → List (List ℕ) → List ℕ → List (List ℕ) → Run Ordering
unfolding lexicographic
cmp_loop zero part1 it1 part2 it2 = panic
cmp_loop (suc fuel) part1 it1 part2 it2 =
    let less : Run Ordering = done Ordering.lt in
    let greater : Run Ordering = done Ordering.gt in
    elim (compare (length part1) (length part2)) [
      | Ordering.eq ↦
          let both : Run Ordering = (elim it1 [
            | [] ↦ elim it2 [ [] ↦ done Ordering.eq | p2 ∷ rest2 ↦ less ]
            | p1 ∷ rest1 ↦ elim it2 [ [] ↦ greater | p2 ∷ rest2 ↦ cmp_loop fuel p1 rest1 p2 rest2 ]
          ]) in
          elim (lexicographic part1 part2) [
            | Ordering.lt ↦ less
            | Ordering.gt ↦ greater
            | Ordering.eq ↦ both
          ]
      | Ordering.lt ↦
          let next : Run Ordering = (elim it1 [
            | [] ↦ less
            | p1 ∷ rest1 ↦ cmp_loop fuel p1 rest1 (drop (length part1) part2) it2
          ]) in
          elim (lexicographic part1 (take (length part1) part2)) [
            | Ordering.lt ↦ less
            | Ordering.gt ↦ greater
            | Ordering.eq ↦ next
          ]
      | Ordering.gt ↦
          let next : Run Ordering = (elim it2 [
            | [] ↦ greater
            | p2 ∷ rest2 ↦ cmp_loop fuel (drop (length part2) part1) it1 p2 rest2
          ]) in
          elim (lexicographic (take (length part2) part1) part2) [
            | Ordering.lt ↦ less
            | Ordering.gt ↦ greater
            | Ordering.eq ↦ next
          ]
    ]

unfoldable pub cmp : SizedDictEntry → SizedDictEntry → Run Ordering
unfolding len chunks cmp_loop
cmp e f =
    let empty : Run Ordering = done Ordering.eq in
    let loop : Run Ordering = (elim (chunks e) [
      | [] ↦ panic
      | part1 ∷ it1 ↦ elim (chunks f) [
        | [] ↦ panic
        | part2 ∷ it2 ↦ cmp_loop (length it1 + length it2 + 1) part1 it1 part2 it2
      ]
    ]) in
    if len e == 0 && len f == 0 then empty else loop

-- `PartialEq`.
unfoldable pub eq : SizedDictEntry → SizedDictEntry → Run Bool
unfolding len cmp
eq e f =
    let compared =
      (cmp e f >>= λ o.
      done (elim o [ Ordering.eq ↦ true | Ordering.lt ↦ false | Ordering.gt ↦ false ])) in
    if len e == len f then compared else done false
