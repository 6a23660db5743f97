-- ===== src/Util/Padding.antt =====
-- The padding that `write_padding` writes.
use native.Mathlib.Nat.{mod-lt, mod-eq_of_lt, mul-mod_right, mul-suc, div-add-mod, mod_self}
use tdb_succinct_wasm.Base.{
  ℕ, suc, ◌+◌, ◌-◌, ◌*◌, ◌/◌, ◌%◌, ◌<◌, ◌≡◌, refl, ap, ◌∙◌, false, replicate, inl, inr, ◌==◌,
  Result, ok, err, done, Bool-cases, checked_sub_lem, arith,
}
use tdb_succinct_wasm.Util.{Writer, and_then, write_padding}

-- The count of zeros.
missing : ℕ → ℕ → ℕ
missing pos width = (width - pos % width) % width

missing_lem : (pos width : ℕ) → 0 < width → (pos + missing pos width) % width ≡ 0
unfolding missing
missing_lem pos width h =
    let most = mod-lt pos h in
    elim (Bool-cases (pos % width == 0)) [
      | inl t ↦
          let exact : pos % width ≡ 0 = ground (arith, t) in
          let none_left : (width - pos % width) % width ≡ 0 =
            let same : width - pos % width ≡ width = omega (arith, exact) in
            ap (λ r. r % width) same ∙ mod_self width in
          ap (λ k. (pos + k) % width) none_left ∙ ap (λ k. k % width) (omega arith) ∙ exact
      | inr f ↦
          let short : width - pos % width < width = ground (arith, f) in
          let whole : pos + (width - pos % width) ≡ width * suc (pos / width) =
            omega (arith, div-add-mod pos width, mul-suc width (pos / width), most) in
          ap (λ k. (pos + k) % width) (mod-eq_of_lt short)
          ∙ ap (λ k. k % width) whole
          ∙ mul-mod_right width (suc (pos / width))
    ]

module _ (io : Writer) where
  -- Nothing is done behind the last call, so its answer is the function's.
  and_then-tt : (r : io.W × Result io.Error (Unit {0})) → and_then io r (λ w. (w, ok tt)) ≡ r
  unfolding and_then
  and_then-tt (w, ok tt) = refl
  and_then-tt (w, err e) = refl

  -- For a width of 1 or more and any writer, `write_padding` does not panic and makes one call of
  -- `write_all`: it hands over fewer zeros than the width, as many as bring the position to a multiple
  -- of the width, and its answer and the writer it leaves behind are those of this call, also where
  -- it is an error.
  pub write_padding_lem :
      (w : io.W) (current_pos width : ℕ)
      → 0 < width
      → (count : ℕ) × (write_padding io w current_pos width
          ≡ done (io.write_all w (replicate count 0)))
        × (count < width)
        × ((current_pos + count) % width ≡ 0)
  unfolding write_padding
  write_padding_lem w current_pos width h =
      let positive : (width == 0) ≡ false = ground arith in
      let most = mod-lt current_pos h in
      let taken = checked_sub_lem width (current_pos % width) (omega (arith, most)) in
      (
        missing current_pos width,
        rw (positive, taken)
            (unfold missing in ap done (and_then-tt (io.write_all w (replicate _ 0)))),
        unfold missing in mod-lt (width - current_pos % width) h,
        missing_lem current_pos width h,
      )
