-- ===== src/Tfc/Dict/EntryOf.antt =====
-- A dictionary whose data are the bytes of its blocks answers with their strings.
use tdb_succinct_wasm.Base.{
  ℕ, zero, suc, ◌+◌, ◌-◌, ◌*◌, ◌/◌, ◌%◌, ◌<◌, ◌≡◌, refl, sym, ap, ◌∙◌, true, false, Option, none,
  some, List, ◌∷◌, length, length-drop, drop, ltb, ◌==◌, done, panic, checked_sub, checked_sub_lem,
  arith,
}
use tdb_succinct_wasm.Words.{Buffers}
use tdb_succinct_wasm.Monotonic as Monotonic
use tdb_succinct_wasm.Tfc.Entry.{SizedDictEntry, to_vec}
use tdb_succinct_wasm.Tfc.Block.{parse_block_control_records}
use tdb_succinct_wasm.Tfc.Block.Build as Build
use tdb_succinct_wasm.Tfc.Block.Build.{RecordCode, control_word_lem}
use tdb_succinct_wasm.Tfc.Block.Parse.{block_of, parse-block_bytes}
use tdb_succinct_wasm.Tfc.Block.Strings.{string_at, block_of-Holds}
use tdb_succinct_wasm.Tfc.Block.EntryOf.{entry-Holds}
use tdb_succinct_wasm.Tfc.Block.Search.{slice_from_lem}
use tdb_succinct_wasm.Tfc.Dict.{
  SizedDict, is_empty, num_blocks, block_offset, block_bytes, block, block_num_elements,
  num_entries, entry,
}
use tdb_succinct_wasm.Tfc.Dict.Blocks.{
  AreBlocks, block_at, data_of, start_of, strings_of, string_at-strings_of, length-strings_of,
  byte_at-drop,
}

-- A dictionary over the bytes of some blocks, one or more, with where each but the first starts.
pub record Stores (io : Buffers) (rs : Option ℕ) (code : ℕ) (d : SizedDict)
    (bs : List (List ℕ × List (List ℕ))) : Type 0 where
  pub coded : RecordCode rs code
  pub blocks : AreBlocks rs bs
  pub data_lem : d.data_bytes ≡ data_of rs code bs
  pub count : d.offsets.logarray.len + 1 ≡ length bs
  pub offset :
      (i : ℕ)
      → suc i < length bs
      → Monotonic.entry io d.offsets i ≡ done (start_of rs code bs (suc i) + d.dict_offset)

module _ {io : Buffers} {rs : Option ℕ} {code : ℕ} {d : SizedDict}
    {bs : List (List ℕ × List (List ℕ))} (h : Stores io rs code d bs) where
  pub full_data : is_empty d ≡ false
  unfolding is_empty Build.block_bytes
  full_data =
      let a = block_at rs code bs 0 h.blocks (omega (arith, h.count)) in
      let size = ap length (ap (drop (start_of rs code bs 0)) h.data_lem ∙ a.bytes) in
      let some_bytes : 0 < length d.data_bytes =
        omega (arith, length-drop (start_of rs code bs 0) d.data_bytes, size) in
      ground (arith, some_bytes)

  block_offset_lem : (i : ℕ) → i < length bs → block_offset io d i ≡ done (start_of rs code bs i)
  unfolding block_offset start_of
  block_offset_lem zero lt = refl
  block_offset_lem (suc i) lt =
      let back =
        checked_sub_lem (start_of rs code bs (suc i) + d.dict_offset) d.dict_offset (omega arith) in
      let same : start_of rs code bs (suc i) + d.dict_offset - d.dict_offset
          ≡ start_of rs code bs (suc i) =
        omega arith in
      rw (h.offset i lt, back, same) refl

  pub block_bytes_lem :
      (i : ℕ)
      → i < length bs
      → block_bytes io d i ≡ done (drop (start_of rs code bs i) d.data_bytes)
  unfolding block_bytes
  block_bytes_lem i lt =
      let a = block_at rs code bs i h.blocks lt in
      rw (full_data, block_offset_lem i lt)
        (slice_from_lem d.data_bytes (start_of rs code bs i) (rw (sym h.data_lem) at a.inside))

  pub block_lem :
      (i : ℕ) (lt : i < length bs)
      → (let a = block_at rs code bs i h.blocks lt in
          block io d i ≡ done (block_of a.first a.slices))
  unfolding block
  block_lem i lt =
      let a = block_at rs code bs i h.blocks lt in
      let cut = ap (drop (start_of rs code bs i)) h.data_lem ∙ a.bytes in
      let parsed =
        parse-block_bytes io a.first a.slices a.behind h.coded a.few a.short a.shorts a.fits in
      rw (block_bytes_lem i lt, cut, parsed) refl

  pub num_blocks_lem : num_blocks d ≡ length bs
  unfolding num_blocks
  num_blocks_lem = rw full_data h.count

  -- `num_entries` is the number of the strings.
  num_entries_lem : num_entries io d ≡ done (length (strings_of bs))
  unfolding num_entries block_num_elements parse_block_control_records Build.block_bytes
  num_entries_lem =
      let last = d.offsets.logarray.len in
      let inside : last < length bs = omega (arith, h.count) in
      let a = block_at rs code bs last h.blocks inside in
      let cut = ap (drop (start_of rs code bs last)) h.data_lem ∙ a.bytes in
      let word =
        byte_at-drop d.data_bytes (start_of rs code bs last) (length a.slices + code) _ cut in
      let (_, read) = control_word_lem (length a.slices) h.coded a.few in
      let filled : (num_blocks d == 0) ≡ false = ground (arith, num_blocks_lem, inside) in
      let before : num_blocks d - 1 ≡ last = omega (arith, num_blocks_lem, h.count) in
      let total =
        length-strings_of rs bs last h.blocks (omega (arith, h.count))
        ∙ ap (λ ss. last * 8 + length ss) a.strings in
      rw (filled, before, full_data, block_offset_lem last inside, word, read)
        (ap done (omega (arith, total)))

  entry_some :
      (size_of k : ℕ)
      → k < length (strings_of bs)
      → (e : SizedDictEntry) × (entry io size_of d (k + 1) ≡ done (some e))
        × (to_vec e ≡ string_at (strings_of bs) k)
  unfolding entry
  entry_some size_of k lt =
      let (inside, place, same) =
        string_at-strings_of rs bs (k / 8) (k % 8) k h.blocks (omega arith) (omega arith) lt in
      let a = block_at rs code bs (k / 8) h.blocks inside in
      let place' : k % 8 < length (a.first ∷ a.slices) = rw a.strings at place in
      let (e, run, bytes) = entry-Holds size_of (k % 8) (block_of-Holds a.first a.slices) place' in
      let within : ltb (length (strings_of bs)) (k + 1) ≡ false = ground (arith, lt) in
      let before : checked_sub (k + 1) 1 ≡ done k =
        checked_sub_lem (k + 1) 1 (omega arith) ∙ ap done (omega arith) in
      (
        e,
        rw (num_entries_lem, within, before, block_lem (k / 8) inside, run) refl,
        bytes ∙ ap (λ ss. string_at ss (k % 8)) (sym a.strings) ∙ same,
      )

  -- In a dictionary over the bytes of some blocks of short strings, one or more and all full but the
  -- last, `num_entries` is the number of the strings; `entry` at an index from 1 up to it has the
  -- bytes of the string of that place, answers none beyond, and panics at 0.
  pub entry-Stores :
      (size_of : ℕ)
      → (num_entries io d ≡ done (length (strings_of bs)))
        × ((k : ℕ)
            → k < length (strings_of bs)
            → (e : SizedDictEntry) × (entry io size_of d (k + 1) ≡ done (some e))
              × (to_vec e ≡ string_at (strings_of bs) k))
        × ((index : ℕ) → length (strings_of bs) < index → entry io size_of d index ≡ done none)
        × (entry io size_of d 0 ≡ panic)
  unfolding entry
  entry-Stores size_of = (
    num_entries_lem,
    entry_some size_of,
    λ index beyond.
        (let over : ltb (length (strings_of bs)) index ≡ true = ground (arith, beyond) in
          rw (num_entries_lem, over) refl),
    (let within : ltb (length (strings_of bs)) 0 ≡ false = ground arith in
        rw (num_entries_lem, within) refl),
  )
