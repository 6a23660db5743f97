-- ===== src/Tfc/Dict/Cutting.antt =====
-- How the builder of a dictionary cuts strings into blocks.
use mathlib.Core.List.{append_assoc}
use tdb_succinct_wasm.Base.{
  ℕ, ◌+◌, ◌<◌, ◌≡◌, refl, ap, ◌∙◌, inl, inr, Option, none, some, List, [], ◌∷◌, ◌++◌, length,
  length-append, All, All-snoc, ◌==◌, if◌then◌else◌, Bool-cases, arith,
}
use tdb_succinct_wasm.Tfc.Block.Build.{block_bytes}
use tdb_succinct_wasm.Tfc.Block.Parse.{IsShort, FitsRecord, FitsRecord-tail}
use tdb_succinct_wasm.Tfc.Dict.Blocks.{AreBlocks, strings_of}

-- The strings in blocks of eight, behind those of a block that is not full yet.
unfoldable pub blocks_behind : List (List ℕ) → List (List ℕ) → List (List ℕ × List (List ℕ))
blocks_behind [] [] = []
blocks_behind (first ∷ slices) [] = (first, slices) ∷ []
blocks_behind [] (val ∷ vals) = blocks_behind (val ∷ []) vals
blocks_behind (first ∷ slices) (val ∷ vals) =
    let full = (first, slices ++ (val ∷ [])) ∷ blocks_behind [] vals in
    let open_block = blocks_behind (first ∷ (slices ++ (val ∷ []))) vals in
    if length slices == 6 then full else open_block

-- Where the blocks end, from an offset on.
unfoldable pub ends_from : Option ℕ → ℕ → ℕ → List (List ℕ × List (List ℕ)) → List ℕ
ends_from rs code offset [] = []
ends_from rs code offset ((first, slices) ∷ bs) =
    let end = offset + length (block_bytes rs (length slices + code) first slices) in
    end ∷ ends_from rs code end bs

pub strings_of-blocks_behind :
    (cur vals : List (List ℕ)) → strings_of (blocks_behind cur vals) ≡ cur ++ vals
unfolding strings_of blocks_behind
strings_of-blocks_behind [] [] = refl
strings_of-blocks_behind (first ∷ slices) [] = refl
strings_of-blocks_behind [] (val ∷ vals) = strings_of-blocks_behind (val ∷ []) vals
strings_of-blocks_behind (first ∷ slices) (val ∷ vals) =
    let regroup = ap (λ l. first ∷ l) (append_assoc slices (val ∷ []) vals) in
    elim (Bool-cases (length slices == 6)) [
      | inl t ↦ rw t (
          ap (λ l. first ∷ ((slices ++ (val ∷ [])) ++ l)) (strings_of-blocks_behind [] vals)
          ∙ regroup)
      | inr f ↦ rw f (strings_of-blocks_behind (first ∷ (slices ++ (val ∷ []))) vals ∙ regroup)
    ]

FitsRecord-snoc :
    (rs : Option ℕ) (slices : List (List ℕ)) (val : List ℕ)
    → FitsRecord rs slices
    → FitsRecord rs (val ∷ [])
    → FitsRecord rs (slices ++ (val ∷ []))
unfolding FitsRecord
FitsRecord-snoc none slices val h v = tt
FitsRecord-snoc (some k) slices val h v = All-snoc (λ s. length s ≡ k) slices val h v.0

FitsRecord-head :
    (rs : Option ℕ) (slices : List (List ℕ)) (val : List ℕ)
    → FitsRecord rs (val ∷ slices)
    → FitsRecord rs (val ∷ [])
unfolding FitsRecord
FitsRecord-head none slices val h = tt
FitsRecord-head (some k) slices val h = (h.0, tt)

pub FitsRecord-nil : (rs : Option ℕ) → FitsRecord rs []
unfolding FitsRecord
FitsRecord-nil none = tt
FitsRecord-nil (some k) = tt

pub blocks_behind-AreBlocks :
    (rs : Option ℕ) (first : List ℕ) (slices vals : List (List ℕ))
    → length slices < 7
    → IsShort first
    → All IsShort slices
    → All IsShort vals
    → FitsRecord rs slices
    → FitsRecord rs vals
    → AreBlocks rs (blocks_behind (first ∷ slices) vals)
unfolding blocks_behind AreBlocks
blocks_behind-AreBlocks rs first slices [] few hf hs hv fs fv =
    (omega (arith, few), hf, hs, fs, λ h. absurd (omega (arith, h)), tt)
blocks_behind-AreBlocks rs first slices (val ∷ []) few hf hs (hv, _) fs fv =
    let size = length-append slices (val ∷ []) in
    elim (Bool-cases (length slices == 6)) [
      | inl t ↦ rw t (
        omega (arith, size, few),
        hf,
        All-snoc IsShort slices val hs hv,
        FitsRecord-snoc rs slices val fs fv,
        λ h. absurd (omega (arith, h)),
        tt,
      )
      | inr f ↦ rw f (
        omega (arith, size, few),
        hf,
        All-snoc IsShort slices val hs hv,
        FitsRecord-snoc rs slices val fs fv,
        λ h. absurd (omega (arith, h)),
        tt,
      )
    ]
blocks_behind-AreBlocks rs first slices (val ∷ next ∷ vals) few hf hs (hv, (hn, hvs)) fs fv =
    let size = length-append slices (val ∷ []) in
    let shorts = All-snoc IsShort slices val hs hv in
    let fits = FitsRecord-snoc rs slices val fs (FitsRecord-head rs (next ∷ vals) val fv) in
    let left = FitsRecord-tail rs val (next ∷ vals) fv in
    elim (Bool-cases (length slices == 6)) [
      | inl t ↦
          let exact : length (slices ++ (val ∷ [])) ≡ 7 = ground (arith, t, size) in
          rw t (
            omega (arith, exact),
            hf,
            shorts,
            fits,
            λ h. exact,
            blocks_behind-AreBlocks rs next [] vals (omega arith) hn tt hvs (FitsRecord-nil rs)
                (FitsRecord-tail rs next vals left),
          )
      | inr f ↦ rw f (
          blocks_behind-AreBlocks rs first (slices ++ (val ∷ [])) (next ∷ vals)
            (ground (arith, f, size, few)) hf shorts (hn, hvs) fits left)
    ]
