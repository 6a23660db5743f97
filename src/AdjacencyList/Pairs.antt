-- ===== src/AdjacencyList/Pairs.antt =====
-- The pairs of an adjacency list: the iterator counts what `pair_at_pos` asks the index for.
use native.Mathlib.Decide.{dec_lt}
use tdb_succinct_wasm.Base.{
  ℕ, zero, suc, ◌+◌, ◌-◌, ◌≤◌, ◌<◌, ◌≡◌, refl, ◌∙◌, Bool, true, false, none, some, List, [], ◌∷◌,
  inl, inr, length, get_or, leb, ◌==◌, if◌then◌else◌, done, Bool-cases, arith,
}
use tdb_succinct_wasm.Words.{Buffers}
use tdb_succinct_wasm.LogArray
use tdb_succinct_wasm.LogArray.Entry
use tdb_succinct_wasm.LogArray.Entry.{entry-Represents}
use tdb_succinct_wasm.BitArray.Get.{ones, get-Represents}
use tdb_succinct_wasm.BitIndex
use tdb_succinct_wasm.BitIndex.Rank.{IsIndexed, rank1-ones}
use tdb_succinct_wasm.AdjacencyList.{
  AdjacencyList, AdjacencyListIterator, left_count, left_at_pos, pair_at_pos, iter, next_loop, next,
  collect,
}

-- The pairs from place `i` on. The left-hand side is one more than the ones before the place, and a
-- right-hand side of 0 is no pair.
unfoldable pub pairs_from : ℕ → ℕ → List Bool → List ℕ → List (ℕ × ℕ)
pairs_from zero i bs vs = []
pairs_from (suc n) i bs vs =
    let rest = pairs_from n (i + 1) bs vs in
    if get_or vs i 0 == 0 then rest else (ones bs i + 1, get_or vs i 0) ∷ rest

-- The left-hand side behind a place.
pub left_next :
    (bs : List Bool) (i : ℕ)
    → (if get_or bs i false then ones bs i + 1 + 1 else ones bs i + 1) ≡ ones bs (i + 1) + 1
unfolding ones
left_next bs i =
    let e : i + 1 ≡ suc i = omega arith in
    rw e (elim (Bool-cases (get_or bs i false)) [ inl t ↦ rw t refl | inr f ↦ rw f (omega arith) ])

-- What the adjacency list holds.
pub record Holds (al : AdjacencyList) (bs : List Bool) (vs : List ℕ) : Type 0 where
  pub bits : IsIndexed al.bits bs
  pub ws : List ℕ
  pub nums : Entry.Represents al.nums ws vs
  pub same : length vs ≡ length bs

module _ (io : Buffers) {al : AdjacencyList} {bs : List Bool} {vs : List ℕ}
    (holds : Holds al bs vs) where
  abbrev at : ℕ → AdjacencyListIterator
  at i = record { pos = i; left = ones bs i + 1; bits = al.bits; nums = al.nums }

  bits_len : BitIndex.len al.bits ≡ length bs
  unfolding BitIndex.len
  bits_len = holds.bits.array.len

  read_bit : (i : ℕ) → i < length bs → BitIndex.get al.bits i ≡ done (get_or bs i false)
  unfolding BitIndex.get
  read_bit i h = get-Represents holds.bits.array i (omega (arith, holds.bits.array.len))

  read_num : (i : ℕ) → i < length bs → LogArray.entry io al.nums i ≡ done (get_or vs i 0)
  read_num i h = entry-Represents io holds.nums i (omega (arith, holds.nums.len, holds.same))

  -- One round of the iterator at a place within the list.
  round :
      (fuel i : ℕ)
      → i < length bs
      → next_loop io (suc fuel) (at i) ≡ (
          if get_or vs i 0 == 0
          then next_loop io fuel (at (i + 1))
          else done (some (ones bs i + 1, get_or vs i 0), at (i + 1)))
  unfolding next_loop
  round fuel i h =
      let inside : leb (BitIndex.len al.bits) i ≡ false = ground (arith, bits_len) in
      rw (inside, read_bit i h, read_num i h, left_next bs i) refl

  end_of_list : (i : ℕ) → length bs ≤ i → next io (at i) ≡ done (none, at i)
  unfolding next next_loop
  end_of_list i h =
      let ends : leb (BitIndex.len al.bits) i ≡ true = ground (arith, bits_len) in
      let fuel : BitIndex.len al.bits - i + 1 ≡ suc (BitIndex.len al.bits - i) = omega arith in
      rw (fuel, ends) refl

  next_zero : (i : ℕ) → i < length bs → get_or vs i 0 ≡ 0 → next io (at i) ≡ next io (at (i + 1))
  unfolding next
  next_zero i h z =
      let test : (get_or vs i 0 == 0) ≡ true = ground (arith, z) in
      let left : BitIndex.len al.bits - i ≡ BitIndex.len al.bits - (i + 1) + 1 =
        omega (arith, bits_len) in
      let fuel : BitIndex.len al.bits - i + 1 ≡ suc (BitIndex.len al.bits - (i + 1) + 1) =
        omega (arith, bits_len) in
      rw fuel (round (BitIndex.len al.bits - (i + 1) + 1) i h ∙ rw test refl)

  next_pair :
      (i : ℕ)
      → i < length bs
      → (get_or vs i 0 == 0) ≡ false
      → next io (at i) ≡ done (some (ones bs i + 1, get_or vs i 0), at (i + 1))
  unfolding next
  next_pair i h test =
      let fuel : BitIndex.len al.bits - i + 1 ≡ suc (BitIndex.len al.bits - i) = omega arith in
      rw fuel (round (BitIndex.len al.bits - i) i h ∙ rw test refl)

  collect-pairs_from :
      (n i calls : ℕ)
      → i + n ≡ length bs
      → n < calls
      → collect io calls (at i) ≡ done (pairs_from n i bs vs)
  unfolding collect pairs_from
  collect-pairs_from n i zero e h = absurd (omega arith)
  collect-pairs_from zero i (suc calls) e h = rw (end_of_list i (omega arith)) refl
  collect-pairs_from (suc n) i (suc calls) e h = elim (Bool-cases (get_or vs i 0 == 0)) [
    | inl t ↦
        let z : get_or vs i 0 ≡ 0 = ground (arith, t) in
        let rest = collect-pairs_from n (i + 1) (suc calls) (omega arith) (omega arith) in
        rw (next_zero i (omega arith) z, t) rest
    | inr f ↦
        let rest = collect-pairs_from n (i + 1) calls (omega arith) (omega arith) in
        rw (next_pair i (omega arith) f, f, rest) refl
  ]

  rank_before :
      (i : ℕ) → i < length bs → BitIndex.rank1 io al.bits (suc i - 1) ≡ done (ones bs (suc i))
  rank_before i h =
      let e : suc i - 1 ≡ i = omega arith in
      let e' : i + 1 ≡ suc i = omega arith in rw e (rw e' at (rank1-ones io holds.bits i h))

  left_lem : (i : ℕ) → i < length bs → left_at_pos io al i ≡ done (ones bs i + 1)
  unfolding left_at_pos
  left_lem zero h = unfold ones in refl
  left_lem (suc i) h =
      let test : (suc i == 0) ≡ false = ground arith in rw (test, rank_before i (omega arith)) refl

  pair_lem : (i : ℕ) → i < length bs → pair_at_pos io al i ≡ done (ones bs i + 1, get_or vs i 0)
  unfolding pair_at_pos
  pair_lem zero h = rw (read_num 0 h) (unfold ones in refl)
  pair_lem (suc i) h =
      let test : (suc i == 0) ≡ false = ground arith in
      rw (test, rank_before i (omega arith), read_num (suc i) h) refl

  count_lem : left_count io al ≡ done (ones bs (length bs))
  unfolding left_count
  count_lem = elim (dec_lt 0 (length bs)) [
    | yes p ↦
        let test : (BitIndex.len al.bits == 0) ≡ false = ground (arith, bits_len) in
        let e : length bs - 1 + 1 ≡ length bs = omega arith in
        rw (test, bits_len) (rw e at (rank1-ones io holds.bits (length bs - 1) (omega arith)))
    | no p ↦
        let test : (BitIndex.len al.bits == 0) ≡ true = ground (arith, bits_len) in
        let e : length bs ≡ 0 = omega arith in rw (test, e) (unfold ones in refl)
  ]

  -- On an adjacency list that holds the bits `bs` and the numbers `vs`, the iterator hands out without
  -- a panic the pairs of `pairs_from`; at each place below the length `pair_at_pos` answers one more
  -- than the number of ones before the place, and the number there, and `left_at_pos` the first of
  -- the two; `left_count` is the number of ones.
  pub collect-pair_at_pos :
      (collect io (length bs + 1) (iter al) ≡ done (pairs_from (length bs) 0 bs vs))
      × ((i : ℕ) → i < length bs → pair_at_pos io al i ≡ done (ones bs i + 1, get_or vs i 0))
      × ((i : ℕ) → i < length bs → left_at_pos io al i ≡ done (ones bs i + 1))
      × (left_count io al ≡ done (ones bs (length bs)))
  unfolding iter ones
  collect-pair_at_pos = (
    collect-pairs_from (length bs) 0 (length bs + 1) (omega arith) (omega arith),
    pair_lem,
    left_lem,
    count_lem,
  )
