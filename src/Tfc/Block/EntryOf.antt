-- ===== src/Tfc/Block/EntryOf.antt =====
-- `entry` puts a string together from the pieces that the strings before it hold.
use mathlib.Core.List.{append_assoc, append-nil, reverse}
use tdb_succinct_wasm.Base.{
  ℕ, zero, suc, ◌+◌, ◌-◌, ◌*◌, ◌≤◌, ◌<◌, ◌≡◌, refl, sym, ap, ◌∙◌, true, false, inl, inr, ◌&&◌, List,
  [], ◌∷◌, ◌++◌, length, take, drop, length-drop, take_add, take-eq_le, take_append_drop,
  take-length, ltb, ◌==◌, if◌then◌else◌, done, ◌>>=◌, checked_sub, checked_sub_lem, Bool-cases,
  arith,
}
use tdb_succinct_wasm.Words.{byte_at, slice}
use tdb_succinct_wasm.BitIndex.Build.{sum}
use tdb_succinct_wasm.Tfc.Entry.{
  SizedDictEntry, rope, join, chunks, len, rope_len, optimize, total, to_vec, new_optimized,
}
use tdb_succinct_wasm.Tfc.Block.{SizedDictBlock}
use tdb_succinct_wasm.Tfc.Block.Lookup.{take_slices, entry}
use tdb_succinct_wasm.Tfc.Block.Strings.{string_at, shared_at, suffix_at, offset_at, Holds}
use tdb_succinct_wasm.Tfc.Block.Chain.{IsChain, IsChain-length, shared_lengths_lem}

pub sum-take :
    (sizes : List ℕ) (i size : ℕ)
    → byte_at sizes i ≡ done size
    → sum (take i sizes) + size ≡ sum (take (suc i) sizes)
unfolding sum
sum-take [] i size h = absurd cc
sum-take (s ∷ sizes) zero size h = let same : s ≡ size = cc in omega (arith, same)
sum-take (s ∷ sizes) (suc i) size h = omega (arith, sum-take sizes i size h)

pub new_optimized-to_vec :
    (size_of : ℕ) (parts : List (List ℕ)) → to_vec (new_optimized size_of parts) ≡ join parts
unfolding new_optimized to_vec chunks join len rope_len optimize total
new_optimized-to_vec size_of parts =
    elim (Bool-cases (ltb (size_of + len (rope parts)) (size_of * length parts))) [
      | inl t ↦ rw t (append-nil (join parts))
      | inr f ↦ rw f refl
    ]

pub join-append : (xs ys : List (List ℕ)) → join (xs ++ ys) ≡ join xs ++ join ys
unfolding join
join-append [] ys = refl
join-append (x ∷ xs) ys =
    ap (λ t. x ++ t) (join-append xs ys) ∙ sym (append_assoc x (join xs) (join ys))

module _ {b : SizedDictBlock} {strings : List (List ℕ)} (h : Holds b strings) (last : ℕ)
    (inside : last < length strings) where
  -- The offset behind the string that a piece is cut from.
  next_offset :
      (start ix i : ℕ)
      → start + ix ≡ i
      → i < last
      → (if ix == 0 && start == 0
          then done (offset_at b (i - 1))
          else (checked_sub (start + ix) 1 >>= λ at.
              byte_at b.header.sizes at >>= λ size. done (offset_at b (i - 1) + size)))
        ≡ done (offset_at b i)
  next_offset start ix zero e lt =
      let head : (ix == 0 && start == 0) ≡ true = ground arith in rw head refl
  next_offset start ix (suc i) e lt =
      let head : (ix == 0 && start == 0) ≡ false = ground arith in
      let before : checked_sub (start + ix) 1 ≡ done i =
        checked_sub_lem (start + ix) 1 (omega (arith, e)) ∙ ap done (omega (arith, e)) in
      let same : suc i - 1 ≡ i = omega arith in
      let size = h.size i (omega (arith, lt, inside)) in
      rw (head, before, size, same) (ap done (sum-take b.header.sizes i _ size))

  -- The piece that is cut from a string.
  piece_lem :
      (start ix i taken m : ℕ)
      → start + ix ≡ i
      → i < last
      → taken < m
      → taken ≡ shared_at strings i
      → m ≤ length (string_at strings i)
      → (if ix == 0 && start == 0
          then slice b.header.head 0 (m - taken)
          else slice b.data_bytes (offset_at b (i - 1)) (offset_at b (i - 1) + (m - taken)))
        ≡ done (take (m - taken) (drop taken (string_at strings i)))
  unfolding shared_at suffix_at
  piece_lem start ix zero taken m e lt less from fits =
      let head : (ix == 0 && start == 0) ≡ true = ground arith in
      let low : ltb (m - taken) 0 ≡ false = ground arith in
      let high : ltb (length (string_at strings 0)) (m - taken) ≡ false = ground (arith, fits) in
      rw (head, h.head, low, high, from) refl
  piece_lem start ix (suc i) taken m e lt less from fits =
      let head : (ix == 0 && start == 0) ≡ false = ground arith in
      let same : suc i - 1 ≡ i = omega arith in
      let bound = length-drop (shared_at strings (suc i)) (string_at strings (suc i)) in
      rw (head, same, from)
        (h.piece i (m - shared_at strings (suc i)) (omega (arith, lt, inside))
          (omega (arith, bound, fits)))

  take_slices_lem :
      (start : ℕ) (ms : List ℕ) (ix i taken : ℕ)
      → start + ix ≡ i
      → IsChain strings last i taken ms
      → (slices : List (List ℕ)) × (take_slices b start ms ix taken (offset_at b (i - 1))
          ≡ done (slices, offset_at b (last - 1)))
        × (take taken (string_at strings last) ++ join slices
            ≡ take (shared_at strings last) (string_at strings last))
  unfolding take_slices IsChain join
  take_slices_lem start [] ix i taken e (same, done_all) =
      ([], rw same refl, append-nil _ ∙ ap (λ k. take k (string_at strings last)) done_all)
  take_slices_lem start (m ∷ ms) ix i taken e (le, from, fits, agree, rest) =
      let size = IsChain-length strings last (suc i) m ms rest in
      let to_take = checked_sub_lem m taken le in
      let next = next_offset start ix i e (omega (arith, size)) in
      let here : suc i - 1 ≡ i = omega arith in
      let (slices, run, joined) =
        take_slices_lem start ms (ix + 1) (suc i) m (omega (arith, e)) rest in
      let run' : take_slices b start ms (ix + 1) m (offset_at b i)
          ≡ done (slices, offset_at b (last - 1)) =
        ap (λ o. take_slices b start ms (ix + 1) m (offset_at b o)) (sym here) ∙ run in
      elim (Bool-cases (m - taken == 0)) [
        | inl none ↦
            let same : taken ≡ m = ground (arith, none, le) in
            (slices, rw (to_take, next, none, same) run', rw same joined)
        | inr some ↦
            let less : taken < m = ground (arith, some, le) in
            let piece =
              piece_lem start ix i taken m e (omega (arith, size)) less (from less) fits in
            let back : taken + (m - taken) ≡ m = omega (arith, le) in
            let this = string_at strings i in
            let cut = take (m - taken) (drop taken this) in
            (
              cut ∷ slices,
              rw (to_take, next, some, piece, back, run') refl,
              sym (append_assoc (take taken (string_at strings last)) cut (join slices))
                  ∙ ap (λ p. p ++ join slices)
                      (ap (λ p. p ++ cut)
                          (sym (take-eq_le taken m this (string_at strings last) le agree))
                        ∙ take_add taken (m - taken) this
                        ∙ ap (λ k. take k this) back
                        ∙ agree)
                  ∙ joined,
            )
      ]

-- In a block that holds some strings, `entry` does not panic at the index of one, and the entry that
-- it answers has that string's bytes, whatever the size of a piece's handle.
pub entry-Holds :
    {b : SizedDictBlock} {strings : List (List ℕ)} (size_of i : ℕ)
    → Holds b strings
    → i < length strings
    → (e : SizedDictEntry) × (entry size_of b i ≡ done e) × (to_vec e ≡ string_at strings i)
unfolding entry to_vec chunks join suffix_at
entry-Holds size_of zero h inside = (rope (_ ∷ []), refl, append-nil _ ∙ h.head)
entry-Holds {b} {strings} size_of (suc i) h inside =
    let (v, lengths, start, size, chain) = shared_lengths_lem h (suc i) inside i refl in
    let counted : checked_sub (suc i) (length v) ≡ done start =
      checked_sub_lem (suc i) (length v) (omega (arith, size)) ∙ ap done (omega (arith, size)) in
    let (slices, run, joined) =
      take_slices_lem h (suc i) inside start (reverse v) 0 start 0 (omega arith) chain in
    let same : suc i - 1 ≡ i = omega arith in
    let run' : take_slices b start (reverse v) 0 0 (offset_at b (start - 1))
        ≡ done (slices, offset_at b i) =
      run ∙ ap (λ o. done (slices, offset_at b o)) same in
    let suffix = suffix_at strings (suc i) in
    let last = h.piece i (length suffix) inside (omega arith) in
    (
      new_optimized size_of (slices ++ (take (length suffix) suffix ∷ [])),
      rw (lengths, counted, run', h.size i inside, last) refl,
      new_optimized-to_vec size_of (slices ++ (take (length suffix) suffix ∷ []))
          ∙ join-append slices (take (length suffix) suffix ∷ [])
          ∙ ap (λ t. join slices ++ t) (append-nil _ ∙ take-length suffix)
          ∙ ap (λ p. p ++ suffix) joined
          ∙ take_append_drop (shared_at strings (suc i)) (string_at strings (suc i)),
    )
