-- ===== src/Monotonic.antt =====
-- logarray.rs: `MonotonicLogArray` and its binary search.
pub mod Search
pub mod Check
use tdb_succinct_wasm.Base.{
  ℕ, zero, suc, ◌+◌, ◌-◌, ◌/◌, ◌<◌, Bool, true, false, ◌||◌, not, Option, none, some, List, [], ◌∷◌,
  length, ltb, leb, ◌==◌, if◌then◌else◌, Run, done, panic, ◌>>=◌, ◌>>◌, assert, Result, ok, err,
}
use tdb_succinct_wasm.Words.{Buffers}
use tdb_succinct_wasm.LogArray
use tdb_succinct_wasm.LogArray.{LogArray, LogArrayError, LogArrayIterator, next, iter}

-- `MonotonicLogArray` wraps the array whose elements it checked.
pub record MonotonicLogArray : Type 0 where
  pub logarray : LogArray

module _ (io : Buffers) where
  -- The rounds of the check of `from_logarray`, `n` elements from the iterator on.
  check_from : ℕ → LogArrayIterator → ℕ → Run (Unit {0})
  check_from zero it pred = done tt
  check_from (suc n) it pred = do
    (item, it') ← next io it
    elim item [
      | none ↦ done tt
      | some succ ↦ (assert (leb pred succ) >>= λ _. check_from n it' succ)
    ]

  -- `from_logarray`, with the check of a debug build.
  pub from_logarray : LogArray → Run MonotonicLogArray
  unfolding check_from
  from_logarray la = do
    (item, it) ← next io (iter la)
    elim item [
      | none ↦ done (record { logarray = la })
      | some pred ↦ (check_from la.len it pred >>= λ _. done (record { logarray = la }))
    ]

  unfoldable pub parse : List ℕ → Run (Result LogArrayError MonotonicLogArray)
  unfolding from_logarray
  parse bytes = do
    parsed ← LogArray.parse io bytes
    elim parsed [ ok la ↦ (from_logarray la >>= λ m. done (ok m)) | err e ↦ done (err e) ]

  unfoldable pub entry : MonotonicLogArray → ℕ → Run ℕ
  entry m index = LogArray.entry io m.logarray index

  -- The loop of `nearest_index_of`, while `min <= max`. A fuel above the length is enough, and
  -- `panic` at no fuel stands for a loop that goes on.
  search : ℕ → MonotonicLogArray → ℕ → ℕ → ℕ → Run ℕ
  unfolding entry
  search zero m element min max = panic
  search (suc fuel) m element min max =
      let mid = (min + max) / 2 in
      let past : Run ℕ = done ((min + max) / 2 + 1) in
      let round =
        (entry m mid >>= λ here.
        let found : Run ℕ = done mid in
        let up = search fuel m element (mid + 1) max in
        let down = search fuel m element min (mid - 1) in
        let front : Run ℕ = done 0 in
        if element == here
        then found
        else if ltb here element
        then up
        else if mid == 0
        then front
        else down) in
      if leb min max then round else past

  pub nearest_index_of : MonotonicLogArray → ℕ → Run ℕ
  unfolding search
  nearest_index_of m element =
      if m.logarray.len == 0
      then done 0
      else search (m.logarray.len + 1) m element 0 (m.logarray.len - 1)

  pub index_of : MonotonicLogArray → ℕ → Run (Option ℕ)
  unfolding nearest_index_of
  index_of m element = do
    index ← nearest_index_of m element
    if leb m.logarray.len index
        then done none
        else (entry m index >>= λ here. done (if here == element then some index else none))
