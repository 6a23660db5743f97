-- ===== src/BitIndex/Select/Linear.antt =====
-- The linear scan finds the bit that the rank asks for, and nothing exactly where there is none.
use tdb_succinct_wasm.Base.{
  ℕ, zero, suc, ◌+◌, ◌-◌, ◌≤◌, ◌<◌, ◌≡◌, refl, ◌∙◌, Bool, true, false, inl, inr, Option, none, some,
  List, length, get_or, ltb, leb, ◌==◌, if◌then◌else◌, done, Bool-cases, arith,
}
use tdb_succinct_wasm.BitArray.Get
use tdb_succinct_wasm.BitArray.Get.{get-Represents}
use tdb_succinct_wasm.BitIndex.{BitIndex, get}
use tdb_succinct_wasm.BitIndex.Select.{same, scan, select_from_range_opt_linear}

-- The bits equal to `find` among the first `n`.
unfoldable pub matches : Bool → List Bool → ℕ → ℕ
matches find bs zero = 0
matches find bs (suc n) =
    let before = matches find bs n in if same (get_or bs n false) find then suc before else before

-- The answer is the place in the range of the bit equal to `find` before which, from `start` on,
-- there are `subrank - 1` others; or nothing, where the range has fewer.
abbrev pub Selects : Bool → List Bool → ℕ → ℕ → ℕ → Option ℕ → Type 0
Selects find bs start end subrank none = matches find bs end < matches find bs start + subrank
Selects find bs start end subrank (some i) =
    (start ≤ i)
    × (i < end)
    × (get_or bs i false ≡ find)
    × (matches find bs (i + 1) ≡ matches find bs start + subrank)

same→eq : (a b : Bool) → same a b ≡ true → a ≡ b
same→eq true true h = refl
same→eq true false h = cc
same→eq false true h = cc
same→eq false false h = refl

matches_step :
    (find : Bool) (bs : List Bool) (n : ℕ)
    → matches find bs (n + 1)
      ≡ (if same (get_or bs n false) find then matches find bs n + 1 else matches find bs n)
unfolding matches
matches_step find bs n = let e : n + 1 ≡ suc n = omega arith in rw e (ground arith)

module _ (bi : BitIndex) {ws : List ℕ} {bs : List Bool} (rep : Get.Represents bi.array ws bs)
    (find : Bool) where
  read_bit : (i : ℕ) → i < length bs → get bi i ≡ done (get_or bs i false)
  unfolding get
  read_bit i h = get-Represents rep i (omega (arith, rep.len))

  scan-Selects :
      (n start end subrank : ℕ)
      → start + n ≡ end
      → end ≤ length bs
      → 0 < subrank
      → (r : Option ℕ) × (scan n bi find start subrank ≡ done r)
        × Selects find bs start end subrank r
  unfolding scan
  scan-Selects zero start end subrank e h p =
      let same_end : end ≡ start = omega arith in (none, refl, rw same_end (omega arith))
  scan-Selects (suc n) start end subrank e h p =
      let bit = read_bit start (omega arith) in
      let step = matches_step find bs start in
      elim (Bool-cases (same (get_or bs start false) find)) [
        | inl hit ↦
            let found = same→eq (get_or bs start false) find hit in
            let counted : matches find bs (start + 1) ≡ matches find bs start + 1 =
              rw hit at step in
            let ordered : ltb subrank 1 ≡ false = ground arith in
            elim (Bool-cases (subrank - 1 == 0)) [
              | inl last ↦
                  let one : subrank ≡ 1 = ground arith in
                  (
                    some start,
                    rw (bit, hit, ordered, last),
                    (omega arith, omega arith, found, omega arith),
                  )
              | inr more ↦
                  let left : 0 < subrank - 1 = ground arith in
                  let (r, run, spec) =
                    scan-Selects n (start + 1) end (subrank - 1) (omega arith) h left in
                  (r, rw (bit, hit, ordered, more) run, widen _ r (omega arith) spec)
            ]
        | inr miss ↦
            let counted : matches find bs (start + 1) ≡ matches find bs start = rw miss at step in
            let (r, run, spec) = scan-Selects n (start + 1) end subrank (omega arith) h p in
            (r, rw (bit, miss) run, widen _ r (omega arith) spec)
      ]
    where
      widen :
          (k : ℕ) (r : Option ℕ)
          → matches find bs (start + 1) + k ≡ matches find bs start + subrank
          → Selects find bs (start + 1) end k r
          → Selects find bs start end subrank r
      widen k none q s = omega arith
      widen k (some i) q s = (omega arith, s.1, s.2, s.3 ∙ q)

  -- On a non-empty range within an array of the bits `bs`, and a rank of 1 or more, the linear scan
  -- answers without a panic: the place in the range of the searched bit that has this rank, or
  -- nothing, and then the range has fewer such bits.
  pub select_from_range_opt_linear-Selects :
      (subrank start end : ℕ)
      → start < end
      → end ≤ length bs
      → 0 < subrank
      → (r : Option ℕ) × (select_from_range_opt_linear bi subrank start (some end) find ≡ done r)
        × Selects find bs start end subrank r
  unfolding select_from_range_opt_linear
  select_from_range_opt_linear-Selects subrank start end h k p =
      let inside : leb end start ≡ false = ground arith in
      let positive : (subrank == 0) ≡ false = ground arith in
      rw (inside, positive) (scan-Selects (end - start) start end subrank (omega arith) k p)
