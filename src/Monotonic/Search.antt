-- ===== src/Monotonic/Search.antt =====
-- The binary search on an increasing array.
use native.Mathlib.Decide.{dec_lt}
use tdb_succinct_wasm.Base.{
  ℕ, zero, suc, ◌+◌, ◌-◌, ◌/◌, ◌≤◌, ◌<◌, ◌≡◌, ◌≢◌, ◌⊎◌, inl, inr, none, some, List, length, get_or,
  ltb, leb, ◌==◌, done, Bool-cases, arith,
}
use tdb_succinct_wasm.Words.{Buffers}
use tdb_succinct_wasm.LogArray.Entry.{Represents, entry-Represents}
use tdb_succinct_wasm.Monotonic.{MonotonicLogArray, entry, search, nearest_index_of, index_of}

-- The values never go down.
abbrev pub IsIncreasing : List ℕ → Type 0
IsIncreasing vs = (i j : ℕ) → i ≤ j → j < length vs → get_or vs i 0 ≤ get_or vs j 0

-- The answer is an index of the element; or everything before it is smaller and everything from it
-- on is larger.
abbrev pub IsNearest : List ℕ → ℕ → ℕ → Type 0
IsNearest vs element index =
    (index ≤ length vs)
    × ((j : ℕ) → j < length vs → j < index → get_or vs j 0 ≤ element)
    × ((j : ℕ) → j < length vs → index ≤ j → element ≤ get_or vs j 0)
    × ((j : ℕ)
        → j < length vs
        → get_or vs j 0 ≡ element
        → (index < length vs) × (get_or vs index 0 ≡ element))

module _ (io : Buffers) {m : MonotonicLogArray} {ws vs : List ℕ} (rep : Represents m.logarray ws vs)
    (increasing : IsIncreasing vs) (element : ℕ) where
  read : (i : ℕ) → i < length vs → entry io m i ≡ done (get_or vs i 0)
  unfolding entry
  read i h = entry-Represents io rep i (omega (arith, rep.len))

  -- All before `min` is smaller and all behind `max` larger. `max` is the last index or one below,
  -- so `high` is one more than it.
  search-IsNearest :
      (fuel min max : ℕ)
      → min ≤ max + 1
      → max < length vs
      → max + 1 < min + fuel
      → ((j : ℕ) → j < min → get_or vs j 0 < element)
      → ((j : ℕ) → j < length vs → max < j → element < get_or vs j 0)
      → (index : ℕ) × (search io fuel m element min max ≡ done index) × IsNearest vs element index
  unfolding search
  search-IsNearest zero min max h k f below above = absurd (omega arith)
  search-IsNearest (suc fuel) min max h k f below above =
      let mid = (min + max) / 2 in
      let here = get_or vs mid 0 in
      elim (Bool-cases (leb min max)) [
        | inr past ↦
            let over : min ≡ max + 1 = ground arith in
            let e : (min + max) / 2 + 1 ≡ min = omega arith in
            (
              (min + max) / 2 + 1,
              rw past,
              (
                omega arith,
                λ j p q. omega (arith, below j (omega arith)),
                λ j p q. omega (arith, above j p (omega arith)),
                λ j p q. absurd (elim (dec_lt j min) [
                  | yes r ↦ omega (arith, below j r)
                  | no r ↦ omega (arith, above j p (omega arith))
                ]),
              ),
            )
        | inl inside ↦
            let bound : mid < length vs = ground arith in
            let value = read mid bound in
            elim (Bool-cases (element == here)) [
              | inl equal ↦
                  let same : here ≡ element = ground arith in
                  (
                    mid,
                    rw (inside, value, equal),
                    (
                      omega arith,
                      λ j p q. omega (arith, increasing j mid (omega arith) bound),
                      λ j p q. omega (arith, increasing mid j q p),
                      λ j p q. (bound, same),
                    ),
                  )
              | inr other ↦ elim (Bool-cases (ltb here element)) [
                | inl greater ↦
                    let less : here < element = ground arith in
                    let (index, run, spec) =
                      search-IsNearest fuel (mid + 1) max (ground arith) k (ground arith)
                        (λ j p. omega (arith, increasing j mid (omega arith) bound)) above in
                    (index, rw (inside, value, other, greater) run, spec)
                | inr smaller ↦
                    let more : element < here = ground arith in
                    elim (Bool-cases (mid == 0)) [
                      | inl first ↦
                          let start : mid ≡ 0 = ground arith in
                          (
                            0,
                            rw (inside, value, other, smaller, first),
                            (
                              omega arith,
                              λ j p q. absurd (omega arith),
                              λ j p q. omega (arith, increasing mid j (omega arith) p),
                              λ j p q. absurd (omega (arith, increasing mid j (omega arith) p)),
                            ),
                          )
                      | inr later ↦
                          let pos : 0 < mid = ground arith in
                          let (index, run, spec) =
                            search-IsNearest fuel min (mid - 1) (ground arith) (omega arith)
                              (ground arith) below
                              (λ j p q. omega (arith, increasing mid j (omega arith) p)) in
                          (index, rw (inside, value, other, smaller, later) run, spec)
                    ]
              ]
            ]
      ]

  -- On an increasing array `nearest_index_of` answers without a panic an index, at most the length,
  -- such that no element before it is larger than the one searched and none from it on smaller, and
  -- the searched one stands there if it occurs at all.
  pub nearest_index_of-IsNearest :
      (index : ℕ) × (nearest_index_of io m element ≡ done index) × IsNearest vs element index
  unfolding nearest_index_of
  nearest_index_of-IsNearest = elim (Bool-cases (m.logarray.len == 0)) [
    | inl empty ↦
        let none_held : length vs ≡ 0 = ground (arith, rep.len) in
        (
          0,
          rw empty,
          (
            omega arith,
            λ j p q. absurd (omega arith),
            λ j p q. absurd (omega arith),
            λ j p q. absurd (omega arith),
          ),
        )
    | inr some_held ↦
        let pos : 0 < m.logarray.len = ground arith in
        let (index, run, spec) =
          search-IsNearest (m.logarray.len + 1) 0 (m.logarray.len - 1) (omega arith)
            (omega (arith, rep.len)) (omega arith) (λ j p. absurd (omega arith))
            (λ j p q. absurd (omega (arith, rep.len))) in
        (index, rw some_held run, spec)
  ]

  -- On an increasing array `index_of` answers without a panic an index within the length where the
  -- element stands, or nothing, and then the array does not have it.
  pub index_of_lem :
      ((index : ℕ) × (index_of io m element ≡ done (some index))
        × (index < length vs)
        × (get_or vs index 0 ≡ element))
      ⊎ ((index_of io m element ≡ done none) × ((j : ℕ) → j < length vs → get_or vs j 0 ≢ element))
  unfolding index_of
  index_of_lem =
      let (index, run, spec) = nearest_index_of-IsNearest in
      let exact = spec.3 in
      let size = rep.len in
      elim (Bool-cases (leb m.logarray.len index)) [
        | inl outside ↦
            let over : m.logarray.len ≤ index = ground arith in
            inr (rw (run, outside), λ j p e. omega (arith, (exact j p e).0))
        | inr inside ↦
            let within : index < length vs = ground arith in
            let value = read index within in
            elim (Bool-cases (get_or vs index 0 == element)) [
              | inl hit ↦ inl (index, rw (run, inside, value, hit), within, ground arith)
              | inr miss ↦ inr (
                rw (run, inside, value, miss),
                λ j p e. let found = (exact j p e).1 in ground arith,
              )
            ]
      ]
