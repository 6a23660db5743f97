-- ===== src/Tfc/Dict/RoundTrip.antt =====
-- A dictionary from the strings to the bytes and back.
use tdb_succinct_wasm.Base.{
  ℕ, zero, suc, ◌+◌, ◌-◌, ◌^◌, ◌≤◌, ◌<◌, ◌≡◌, refl, ap, ◌∙◌, Option, none, some, List, [], ◌∷◌,
  length, length-append, get_or, All, done, panic, ◌>>=◌, arith,
}
use tdb_succinct_wasm.Words.{Buffers}
use tdb_succinct_wasm.Words.Stream.{IsWord}
use tdb_succinct_wasm.LogArray.RoundTrip.{parse-finalize}
use tdb_succinct_wasm.LogArray.Late as Late
use tdb_succinct_wasm.LogArray.Late.{LateBuilder}
use tdb_succinct_wasm.LogArray.Late.RoundTrip.{IsWide, push_vec-IsWide}
use tdb_succinct_wasm.Monotonic as Monotonic
use tdb_succinct_wasm.Monotonic.Check.{from_logarray_lem}
use tdb_succinct_wasm.Tfc.Entry.{SizedDictEntry, to_vec}
use tdb_succinct_wasm.Tfc.Block.Build.{RecordCode, block_bytes}
use tdb_succinct_wasm.Tfc.Block.Parse.{IsShort, FitsRecord}
use tdb_succinct_wasm.Tfc.Block.Strings.{string_at}
use tdb_succinct_wasm.Tfc.Dict.{
  SizedDict, new, add_all, finalize, from_parts, parse, num_entries, entry,
}
use tdb_succinct_wasm.Tfc.Dict.Blocks.{AreBlocks, data_of, start_of, strings_of}
use tdb_succinct_wasm.Tfc.Dict.Cutting.{blocks_behind, ends_from}
use tdb_succinct_wasm.Tfc.Dict.Adding.{finalize-add_all}
use tdb_succinct_wasm.Tfc.Dict.EntryOf.{Stores, entry-Stores}

-- The vector without its last element.
length-init_of : (xs : List ℕ) → length (Late.init_of xs) ≡ length xs - 1
unfolding Late.init_of
length-init_of [] = omega arith
length-init_of (x ∷ []) = omega arith
length-init_of (x ∷ y ∷ xs) = omega (arith, length-init_of (y ∷ xs))

get_or-init_of :
    (xs : List ℕ) (i : ℕ) → suc i < length xs → get_or (Late.init_of xs) i 0 ≡ get_or xs i 0
unfolding Late.init_of
get_or-init_of [] i h = absurd (omega arith)
get_or-init_of (x ∷ []) i h = absurd (omega arith)
get_or-init_of (x ∷ y ∷ xs) zero h = refl
get_or-init_of (x ∷ y ∷ xs) (suc i) h = get_or-init_of (y ∷ xs) i (omega arith)

All-init_of : (w : ℕ) (xs : List ℕ) → All (λ v. v < w) xs → All (λ v. v < w) (Late.init_of xs)
unfolding Late.init_of
All-init_of w [] h = tt
All-init_of w (x ∷ []) h = tt
All-init_of w (x ∷ y ∷ xs) (h, t) = (h, All-init_of w (y ∷ xs) t)

module _ (rs : Option ℕ) (code : ℕ) where
  length-ends_from :
      (k : ℕ) (bs : List (List ℕ × List (List ℕ))) → length (ends_from rs code k bs) ≡ length bs
  unfolding ends_from
  length-ends_from k [] = refl
  length-ends_from k ((first, slices) ∷ bs) =
      ap suc (length-ends_from (k + length (block_bytes rs (length slices + code) first slices)) bs)

  ends_from-start_of :
      (k : ℕ) (bs : List (List ℕ × List (List ℕ))) (i : ℕ)
      → i < length bs
      → get_or (ends_from rs code k bs) i 0 ≡ k + start_of rs code bs (suc i)
  unfolding ends_from start_of
  ends_from-start_of k [] i h = absurd (omega arith)
  ends_from-start_of k ((first, slices) ∷ bs) zero h = omega arith
  ends_from-start_of k ((first, slices) ∷ bs) (suc i) h = omega (
    arith,
    ends_from-start_of (k + length (block_bytes rs (length slices + code) first slices)) bs i
        (omega arith),
  )

  ends_from-IsWord :
      (k : ℕ) (bs : List (List ℕ × List (List ℕ)))
      → k + length (data_of rs code bs) < 2 ^ 64
      → All IsWord (ends_from rs code k bs)
  unfolding ends_from data_of
  ends_from-IsWord k [] h = tt
  ends_from-IsWord k ((first, slices) ∷ bs) h =
      let here = block_bytes rs (length slices + code) first slices in
      let size = length-append here (data_of rs code bs) in
      (omega (arith, h, size), ends_from-IsWord (k + length here) bs (omega (arith, h, size)))

  start_of-le :
      (bs : List (List ℕ × List (List ℕ))) (i : ℕ)
      → start_of rs code bs i ≤ start_of rs code bs (suc i)
  unfolding start_of
  start_of-le [] zero = omega arith
  start_of-le [] (suc i) = omega arith
  start_of-le ((first, slices) ∷ bs) zero = omega arith
  start_of-le ((first, slices) ∷ bs) (suc i) = omega (arith, start_of-le bs i)

length-blocks-le : (bs : List (List ℕ × List (List ℕ))) → length bs ≤ length (strings_of bs)
unfolding strings_of
length-blocks-le [] = omega arith
length-blocks-le ((first, slices) ∷ bs) =
    omega (arith, length-blocks-le bs, length-append (first ∷ slices) (strings_of bs))

length-blocks-pos :
    (bs : List (List ℕ × List (List ℕ))) → 0 < length (strings_of bs) → 0 < length bs
unfolding strings_of
length-blocks-pos [] h = absurd (omega arith)
length-blocks-pos (b ∷ bs) h = omega arith

module _ (io : Buffers) {rs : Option ℕ} {code : ℕ} (coded : RecordCode rs code) where
  -- The ends of the blocks without the last, finished and opened, with the data: a dictionary.
  open_lem :
      (bs : List (List ℕ × List (List ℕ)))
      → AreBlocks rs bs
      → 0 < length bs
      → length bs < 2 ^ 56
      → length (data_of rs code bs) < 2 ^ 64
      → (bytes : List ℕ) × (d : SizedDict) × (Late.finalize io
            ((Late.pop (Late.push_vec (Late.new []) (ends_from rs code 0 bs))).1)
          ≡ done bytes)
        × (parse io bytes (data_of rs code bs) 0 ≡ done d)
        × Stores io rs code d bs
  unfolding Late.new Late.pop Late.finalize parse from_parts Monotonic.parse Monotonic.entry
  open_lem bs blocks some_blocks few room =
      let ends = ends_from rs code 0 bs in
      let b = Late.push_vec (Late.new []) ends in
      let start : IsWide (Late.new []) = record {
        le = omega arith;
        pos = λ h. absurd (omega arith);
        fits = tt;
      } in
      let (wide, vals, buf) =
        push_vec-IsWide ends (Late.new []) (ends_from-IsWord rs code 0 bs (omega (arith, room)))
          start in
      let count = length-ends_from rs code 0 bs in
      let kept = Late.init_of ends in
      let kept_count = length-init_of ends in
      let fits = All-init_of (2 ^ b.width) ends (rw vals at wide.fits) in
      let (bytes, la, run, parsed, size, _, read) =
        parse-finalize io b.width kept
          (wide.pos (omega (arith, ap length vals, count, some_blocks))) wide.le fits
          (omega (arith, kept_count, count, few)) in
      let read_end : (i : ℕ) → suc i < length bs → get_or kept i 0 ≡ start_of rs code bs (suc i) =
        λ i h.
          get_or-init_of ends i (omega (arith, count, h))
          ∙ ends_from-start_of rs code 0 bs i (omega (arith, h))
          ∙ omega arith in
      let up : (i : ℕ) → suc i < length kept → get_or kept i 0 ≤ get_or kept (suc i) 0 = λ i h.
        omega (
          arith,
          read_end i (omega (arith, kept_count, count, h)),
          read_end (suc i) (omega (arith, kept_count, count, h)),
          start_of-le rs code bs (suc i),
        ) in
      let checked = from_logarray_lem io la kept size read up in
      (
        bytes,
        from_parts (record { logarray = la }) (data_of rs code bs) 0,
        rw (buf, vals) run,
        rw (parsed, checked) refl,
        record {
          coded = coded;
          blocks = blocks;
          data_lem = refl;
          count = omega (arith, size, kept_count, count, some_blocks);
          offset = λ i h.
              read i (omega (arith, kept_count, count, h)) ∙ ap done (omega (arith, read_end i h));
        },
      )

  -- What `finalize` leaves, opened: a dictionary over blocks that have the strings.
  pub stored_lem :
      (first : List ℕ) (vals : List (List ℕ))
      → IsShort first
      → All IsShort vals
      → FitsRecord rs vals
      → length (first ∷ vals) < 2 ^ 56
      → length (data_of rs code (blocks_behind [] (first ∷ vals))) < 2 ^ 64
      → (offsets : LateBuilder) × (data_bytes bytes : List ℕ) × (d : SizedDict) × (bs : List
          (List ℕ × List (List ℕ)))
        × ((add_all io (new rs 0 0 (Late.new []) []) (first ∷ vals) >>= λ (ids, b). finalize io b)
            ≡ done (offsets, data_bytes, length data_bytes, length (first ∷ vals)))
        × (Late.finalize io ((Late.pop offsets).1) ≡ done bytes)
        × (parse io bytes data_bytes 0 ≡ done d)
        × Stores io rs code d bs
        × (strings_of bs ≡ first ∷ vals)
  stored_lem first vals hf hv fits few room =
      let bs = blocks_behind [] (first ∷ vals) in
      let (run, strings, blocks) =
        finalize-add_all io coded [] first vals hf hv fits (omega (arith, few)) room in
      let some_blocks : 0 < length bs = length-blocks-pos bs (omega (arith, ap length strings)) in
      let (bytes, d, closed, opened, stores) =
        open_lem bs blocks some_blocks (omega (arith, length-blocks-le bs, ap length strings, few))
          room in
      (
        Late.push_vec (Late.new []) (ends_from rs code 0 bs),
        data_of rs code bs,
        bytes,
        d,
        bs,
        run,
        closed,
        opened,
        stores,
        strings,
      )

  -- Strings of fewer than 2 ^ 60 bytes, one or more and fewer than 2 ^ 56, of the record size where
  -- there is one, and whose blocks have fewer than 2 ^ 64 bytes: `add_all` and `finalize` of a new
  -- builder do not panic, and neither does the array of the offsets without the last; `parse` opens
  -- a dictionary whose `num_entries` is the number of the strings, whose `entry` has the bytes of
  -- the k-th string, from 0, at k + 1, answers none beyond, and panics at 0.
  pub entry-finalize :
      (size_of : ℕ) (first : List ℕ) (vals : List (List ℕ))
      → IsShort first
      → All IsShort vals
      → FitsRecord rs vals
      → length (first ∷ vals) < 2 ^ 56
      → length (data_of rs code (blocks_behind [] (first ∷ vals))) < 2 ^ 64
      → (offsets : LateBuilder) × (data_bytes bytes : List ℕ) × (d : SizedDict) × ((add_all io
              (new rs 0 0 (Late.new []) [])
              (first ∷ vals)
            >>= λ (ids, b). finalize io b)
          ≡ done (offsets, data_bytes, length data_bytes, length (first ∷ vals)))
        × (Late.finalize io ((Late.pop offsets).1) ≡ done bytes)
        × (parse io bytes data_bytes 0 ≡ done d)
        × (num_entries io d ≡ done (length (first ∷ vals)))
        × ((k : ℕ)
            → k < length (first ∷ vals)
            → (e : SizedDictEntry) × (entry io size_of d (k + 1) ≡ done (some e))
              × (to_vec e ≡ string_at (first ∷ vals) k))
        × ((index : ℕ) → length (first ∷ vals) < index → entry io size_of d index ≡ done none)
        × (entry io size_of d 0 ≡ panic)
  entry-finalize size_of first vals hf hv fits few room =
      let (offsets, data_bytes, bytes, d, bs, run, closed, opened, stores, strings) =
        stored_lem first vals hf hv fits few room in
      let (count, each, beyond, under) = rw strings at (entry-Stores stores size_of) in
      (offsets, data_bytes, bytes, d, run, closed, opened, count, each, beyond, under)
