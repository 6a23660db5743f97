-- ===== src/LogArray/Late/RoundTrip.antt =====
-- The builder that finds its width itself: what is pushed is read back by `parse_header_first`.
use native.Mathlib.Nat.{pow-le-pow_right}
use mathlib.Core.List.{append_assoc, append-nil}
use tdb_succinct_wasm.Base.{
  ℕ, ◌^◌, ◌≤◌, ◌<◌, ◌≡◌, refl, sym, ap, ◌∙◌, List, [], ◌∷◌, ◌++◌, length, get_or, ltb,
  if◌then◌else◌, All, All-snoc, done, ◌>>=◌, ok, arith,
}
use tdb_succinct_wasm.Words.{Buffers}
use tdb_succinct_wasm.Words.Stream.{IsWord, be_words}
use tdb_succinct_wasm.Words.Width.{calculate_width, calculate_width_fits}
use tdb_succinct_wasm.LogArray.{LogArray, parse_header_first, entry}
use tdb_succinct_wasm.LogArray.Builder
use tdb_succinct_wasm.LogArray.Builder.Finalize.{
  Data, header, push_vec-new, finalize_without_control_word_lem, control_word_lem,
}
use tdb_succinct_wasm.LogArray.RoundTrip.{array_of, parse_header_first-Data, Data-Represents}
use tdb_succinct_wasm.LogArray.Entry.{entry-Represents}
use tdb_succinct_wasm.LogArray.Late.{LateBuilder, new, count, push, push_vec, finalize_header_first}

-- The width is wide enough for all values so far.
pub record IsWide (b : LateBuilder) : Type 0 where
  pub le : b.width ≤ 64
  pub pos : 0 < length b.vals → 0 < b.width
  pub fits : All (λ v. v < 2 ^ b.width) b.vals

All-widen : (v w : ℕ) (vs : List ℕ) → v ≤ w → All (λ x. x < 2 ^ v) vs → All (λ x. x < 2 ^ w) vs
All-widen v w [] h a = tt
All-widen v w (x ∷ vs) h (p, a) =
    (omega (arith, pow-le-pow_right {n = 2} (omega arith) {i = v} {j = w} h), All-widen v w vs h a)

push-IsWide : (b : LateBuilder) (val : ℕ) → IsWord val → IsWide b → IsWide (push b val)
unfolding push
push-IsWide b val word wide =
    let w = if ltb b.width (calculate_width val) then calculate_width val else b.width in
    let (least, most, _) = calculate_width_fits val 1 word (omega arith) in
    let most' = wide.le in
    let grows : b.width ≤ w = ground arith in
    let holds : calculate_width val ≤ w = ground arith in
    let (_, _, iff) = calculate_width_fits val w word (ground arith) in
    record {
      le = ground arith;
      pos = λ h. ground arith;
      fits =
          All-snoc (λ v. v < 2 ^ w) b.vals val (All-widen b.width w b.vals grows wide.fits)
            (iff.0 holds);
    }

pub push_vec-IsWide :
    (vals : List ℕ) (b : LateBuilder)
    → All IsWord vals
    → IsWide b
    → IsWide (push_vec b vals)
      × ((push_vec b vals).vals ≡ b.vals ++ vals)
      × ((push_vec b vals).buf ≡ b.buf)
unfolding push_vec
push_vec-IsWide [] b h wide = (wide, sym (append-nil b.vals), refl)
push_vec-IsWide (val ∷ vals) b (h, t) wide =
    let (wide', same, buf) = push_vec-IsWide vals (push b val) t (push-IsWide b val h wide) in
    (
      wide',
      same ∙ (unfold push in append_assoc b.vals (val ∷ []) vals),
      buf ∙ (unfold push in refl),
    )

module _ (io : Buffers) (vals rest : List ℕ) (short : length vals < 2 ^ 56) where
  header_first :
      (w : ℕ)
      → 0 < w
      → w ≤ 64
      → All (λ v. v < 2 ^ w) vals
      → (buf : List ℕ) × (la : LogArray) × ((Builder.control_word io (length vals) w >>= λ word.
            Builder.push_vec io (Builder.new (io.put [] word) w) vals >>= λ builder.
            done (Builder.finalize_without_control_word io builder))
          ≡ done buf)
        × (parse_header_first io (buf ++ rest) ≡ done (ok (la, rest)))
        × (la.len ≡ length vals)
        × ((i : ℕ) → i < length vals → entry io la i ≡ done (get_or vals i 0))
  header_first w lo hi small =
      let front = header (length vals) w in
      let (b, pushed, same, enc) = push_vec-new io front w vals lo hi small in
      let d = finalize_without_control_word_lem io enc in
      let d0 : Data [] (be_words d.words) b.width vals = record {
        words = d.words;
        bytes = refl;
        all_words = d.all_words;
        enough = d.enough;
        no_more = d.no_more;
        holds = d.holds;
      } in
      let d' : Data [] (be_words d.words) w vals = rw same at d0 in
      let parsed = parse_header_first-Data io w vals lo hi small short rest d' in
      let shape : Builder.finalize_without_control_word io b ++ rest
          ≡ front ++ (be_words d.words ++ rest) =
        ap (λ t. t ++ rest) d.bytes ∙ append_assoc front (be_words d.words) rest in
      let whole : array_of (be_words d.words ++ []) (length vals) w
          ≡ array_of (be_words d.words) (length vals) w =
        ap (λ t. array_of t (length vals) w) (append-nil (be_words d.words)) in
      (
        Builder.finalize_without_control_word io b,
        array_of (be_words d.words) (length vals) w,
        rw (control_word_lem io (length vals) w short (omega arith), io.put_lem [] front, pushed),
        rw shape parsed,
        refl,
        λ i h. rw whole at (entry-Represents io (Data-Represents [] d' lo hi small) i h),
      )

-- Between 1 and 2 ^ 56 - 1 values of 64 bits, pushed into an empty builder, are read back whatever
-- bytes follow: `finalize_header_first` does not panic, `parse_header_first` leaves exactly the bytes
-- that follow, and the array has the length and at each index below it the value.
pub parse_header_first-finalize :
    (io : Buffers) (vals rest : List ℕ)
    → All IsWord vals
    → 0 < length vals
    → length vals < 2 ^ 56
    → (buf : List ℕ) × (la : LogArray) × (finalize_header_first io (push_vec (new []) vals)
        ≡ done buf)
      × (parse_header_first io (buf ++ rest) ≡ done (ok (la, rest)))
      × (la.len ≡ length vals)
      × ((i : ℕ) → i < length vals → entry io la i ≡ done (get_or vals i 0))
unfolding new finalize_header_first count
parse_header_first-finalize io vals rest words some_vals short =
    let b = push_vec (new []) vals in
    let (wide, same, buf) =
      push_vec-IsWide vals (new []) words
        (record { le = omega arith; pos = λ h. absurd (omega arith); fits = tt }) in
    let small : All (λ v. v < 2 ^ b.width) vals = rw same at wide.fits in
    let pos : 0 < b.width = wide.pos (rw same some_vals) in
    rw (same, buf) (header_first io vals rest short b.width pos wide.le small)
