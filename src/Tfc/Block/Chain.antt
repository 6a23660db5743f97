-- ===== src/Tfc/Block/Chain.antt =====
-- The lengths that `entry` collects going down from a string: what the strings on the way share with it.
use mathlib.Core.List.{reverse, reverse_aux}
use tdb_succinct_wasm.Base.{
  ℕ, zero, suc, ◌+◌, ◌≤◌, ◌<◌, ◌≡◌, refl, ap, ◌∙◌, inl, inr, List, [], ◌∷◌, length, take,
  take-eq_le, ltb, ◌==◌, if◌then◌else◌, done, checked_sub, checked_sub_lem, Bool-cases, arith,
}
use tdb_succinct_wasm.Util.Prefix.{common, common_same, common_other}
use tdb_succinct_wasm.Tfc.Block.{SizedDictBlock}
use tdb_succinct_wasm.Tfc.Block.Build.{common-le}
use tdb_succinct_wasm.Tfc.Block.Lookup.{shared_down, shared_lengths}
use tdb_succinct_wasm.Tfc.Block.Strings.{string_at, shared_at, Holds}

pub take-common : (xs ys : List ℕ) → take (common xs ys) xs ≡ take (common xs ys) ys
unfolding common
take-common [] ys = refl
take-common (x ∷ xs) [] = refl
take-common (x ∷ xs) (y ∷ ys) = elim (Bool-cases (x == y)) [
  | inl t ↦
      let same : x ≡ y = ground (arith, t) in
      rw (common_same x y xs ys t) (rw same (ap (λ t. y ∷ t) (take-common xs ys)))
  | inr f ↦ rw (common_other x y xs ys f) refl
]

-- The lengths that are left, from a string on whose first `taken` bytes are there: each one is a
-- common prefix of that string and the last, and the next piece starts where its suffix does.
unfoldable pub IsChain : List (List ℕ) → ℕ → ℕ → ℕ → List ℕ → Type 0
IsChain strings last i taken [] = (i ≡ last) × (taken ≡ shared_at strings last)
IsChain strings last i taken (m ∷ ms) =
    (taken ≤ m)
    × (taken < m → taken ≡ shared_at strings i)
    × (m ≤ length (string_at strings i))
    × (take m (string_at strings i) ≡ take m (string_at strings last))
    × IsChain strings last (suc i) m ms

pub IsChain-length :
    (strings : List (List ℕ)) (last i taken : ℕ) (ms : List ℕ)
    → IsChain strings last i taken ms
    → i + length ms ≡ last
unfolding IsChain
IsChain-length strings last i taken [] (same, _) = omega (arith, same)
IsChain-length strings last i taken (m ∷ ms) (_, _, _, _, rest) =
    omega (arith, IsChain-length strings last (suc i) m ms rest)

-- A length that the strings on the way down share, and a chain on from there.
record IsReady (strings : List (List ℕ)) (last i m : ℕ) (ms : List ℕ) : Type 0 where
  agree : take m (string_at strings i) ≡ take m (string_at strings last)
  chain :
      (taken : ℕ)
      → taken ≤ m
      → (taken < m → taken ≡ shared_at strings i)
      → IsChain strings last i taken ms

module _ {b : SizedDictBlock} {strings : List (List ℕ)} (h : Holds b strings) (last : ℕ)
    (inside : last < length strings) where
  shared_down_lem :
      (i m : ℕ) (ms : List ℕ)
      → i < length strings
      → IsReady strings last i m ms
      → (v : List ℕ) × (shared_down b.header.shareds i m ≡ done v)
        × (start : ℕ) × (start + length v ≡ i)
        × IsChain strings last start 0 (reverse_aux v ms)
  unfolding shared_down shared_at IsChain
  shared_down_lem zero m ms lt ready =
      ([], refl, 0, omega arith, ready.chain 0 (omega arith) (λ _. refl))
  shared_down_lem (suc i) m ms lt ready =
      let shared = shared_at strings (suc i) in
      let (le, le') = common-le (string_at strings i) (string_at strings (suc i)) in
      elim (Bool-cases (shared == 0)) [
        | inl none ↦
            let zero_shared : 0 ≡ shared = ground (arith, none) in
            (
              [],
              rw (h.shared i lt, none) refl,
              suc i,
              omega arith,
              ready.chain 0 (omega arith) (λ _. zero_shared),
            )
        | inr some ↦
            let m' = if ltb shared m then shared else m in
            let below : m' ≤ m = ground arith in
            let within : m' ≤ shared = ground arith in
            let kept : m' < m → m' ≡ shared = λ less. ground (arith, less) in
            let agree =
              take-eq_le m' shared (string_at strings i) (string_at strings (suc i)) within
                (take-common (string_at strings i) (string_at strings (suc i)))
              ∙ take-eq_le m' m (string_at strings (suc i)) (string_at strings last) below
                  ready.agree in
            let ready' : IsReady strings last i m' (m' ∷ ms) = record {
              agree = agree;
              chain =
                  λ taken t a. (t, a, omega (arith, within, le), agree, ready.chain m' below kept);
            } in
            let (v, run, start, size, chain) =
              shared_down_lem i m' (m' ∷ ms) (omega arith) ready' in
            (m' ∷ v, rw (h.shared i lt, some, run) refl, start, omega (arith, size), chain)
      ]

  pub shared_lengths_lem :
      (i : ℕ)
      → suc i ≡ last
      → (v : List ℕ) × (shared_lengths b.header.shareds (suc i) ≡ done v)
        × (start : ℕ) × (start + length v ≡ suc i)
        × IsChain strings last start 0 (reverse v)
  unfolding shared_lengths shared_at IsChain
  shared_lengths_lem i same =
      let shared = shared_at strings (suc i) in
      let (le, le') = common-le (string_at strings i) (string_at strings (suc i)) in
      let before : checked_sub (suc i) 1 ≡ done i =
        checked_sub_lem (suc i) 1 (omega arith) ∙ ap done (omega arith) in
      let at_last : shared ≡ shared_at strings last = ap (shared_at strings) same in
      elim (Bool-cases (shared == 0)) [
        | inl none ↦
            let zero_shared : 0 ≡ shared = ground (arith, none) in
            (
              [],
              rw (before, h.shared i (omega (arith, inside, same)), none) refl,
              suc i,
              omega arith,
              (same, zero_shared ∙ at_last),
            )
        | inr some ↦
            let agree =
              take-common (string_at strings i) (string_at strings (suc i))
              ∙ ap (λ l. take shared (string_at strings l)) same in
            let ready : IsReady strings last i shared (shared ∷ []) = record {
              agree = agree;
              chain = λ taken t a. (t, a, le, agree, (same, at_last));
            } in
            let (v, run, start, size, chain) =
              shared_down_lem i shared (shared ∷ []) (omega (arith, inside, same)) ready in
            (
              shared ∷ v,
              rw (before, h.shared i (omega (arith, inside, same)), some, run) refl,
              start,
              omega (arith, size),
              chain,
            )
      ]
