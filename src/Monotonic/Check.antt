-- ===== src/Monotonic/Check.antt =====
-- The check of `from_logarray` passes on an increasing array.
use tdb_succinct_wasm.Base.{
  ℕ, zero, suc, ◌+◌, ◌≤◌, ◌<◌, ◌≡◌, refl, true, false, inl, inr, some, List, length, get_or, leb,
  ◌==◌, done, Bool-cases, arith,
}
use tdb_succinct_wasm.Words.{Buffers}
use tdb_succinct_wasm.LogArray.{LogArray, LogArrayIterator, next, iter, entry}
use tdb_succinct_wasm.Monotonic.{check_from, from_logarray}

module _ (io : Buffers) (la : LogArray) (vs : List ℕ) (size : la.len ≡ length vs)
    (entries : (i : ℕ) → i < length vs → entry io la i ≡ done (get_or vs i 0))
    (up : (i : ℕ) → suc i < length vs → get_or vs i 0 ≤ get_or vs (suc i) 0) where
  abbrev at : ℕ → LogArrayIterator
  at i = record { logarray = la; pos = i; end = la.len }

  next-at : (i : ℕ) → i < length vs → next io (at i) ≡ done (some (get_or vs i 0), at (suc i))
  unfolding next
  next-at i h =
      let more : (i == la.len) ≡ false = ground (arith, h, size) in
      let step : i + 1 ≡ suc i = omega arith in rw (more, entries i h, step) refl

  check_from_lem :
      (n i : ℕ) → i < length vs → check_from io n (at (suc i)) (get_or vs i 0) ≡ done tt
  unfolding check_from next
  check_from_lem zero i h = refl
  check_from_lem (suc n) i h = elim (Bool-cases (suc i == length vs)) [
    | inl t ↦ let over : (suc i == la.len) ≡ true = rw size t in rw over refl
    | inr f ↦
        let more : suc i < length vs = ground (arith, f, h) in
        let holds : leb (get_or vs i 0) (get_or vs (suc i) 0) ≡ true = ground (arith, up i more) in
        rw (next-at (suc i) more, holds) (check_from_lem n (suc i) more)
  ]

  pub from_logarray_lem : from_logarray io la ≡ done (record { logarray = la })
  unfolding from_logarray iter next
  from_logarray_lem = elim (Bool-cases (0 == la.len)) [
    | inl t ↦ rw t refl
    | inr f ↦
        let some_values : 0 < length vs = ground (arith, f, size) in
        rw (next-at 0 some_values, check_from_lem la.len 0 some_values) refl
  ]
