-- ===== src/Tfc/Dict/Adding.antt =====
-- What the builder of a dictionary writes: the strings in blocks of eight.
use mathlib.Core.List.{append-nil, append_assoc}
use tdb_succinct_wasm.Base.{
  ℕ, suc, ◌+◌, ◌^◌, ◌<◌, ◌≡◌, refl, sym, ap, ◌∙◌, true, false, inl, inr, Option, List, [], ◌∷◌,
  ◌++◌, length, length-append, All, All-snoc, ltb, ◌==◌, Run, done, panic, ◌>>=◌, Bool-cases, arith,
}
use tdb_succinct_wasm.Words.{Buffers}
use tdb_succinct_wasm.LogArray.Late as Late
use tdb_succinct_wasm.LogArray.Late.{LateBuilder}
use tdb_succinct_wasm.Tfc.Block.Build.{RecordCode, block_bytes, build_block_unchecked_lem}
use tdb_succinct_wasm.Tfc.Block.Parse.{IsShort, FitsRecord}
use tdb_succinct_wasm.Tfc.Block.RoundTrip.{IsShort-IsSlice}
use tdb_succinct_wasm.Tfc.Dict.{SizedDictBufBuilder, new, flush, add, add_all, finalize}
use tdb_succinct_wasm.Tfc.Dict.Blocks.{AreBlocks, data_of, strings_of}
use tdb_succinct_wasm.Tfc.Dict.Cutting.{
  blocks_behind, ends_from, strings_of-blocks_behind, FitsRecord-nil, blocks_behind-AreBlocks,
}

outcome :
    {o o' : LateBuilder} {bs bs' : List ℕ} {k k' n n' : ℕ}
    → o ≡ o'
    → bs ≡ bs'
    → k ≡ k'
    → n ≡ n'
    → ◌≡◌ {A = Run (LateBuilder × List ℕ × ℕ × ℕ)} (done (o, bs, k, n)) (done (o', bs', k', n'))
outcome p q r s = λ i. done (p i, q i, r i, s i)

module _ (io : Buffers) {rs : Option ℕ} {code : ℕ} (coded : RecordCode rs code) where
  -- A builder by its fields.
  abbrev at : ℕ → ℕ → LateBuilder → List ℕ → List (List ℕ) → SizedDictBufBuilder
  at block_offset id_offset offsets data_buf current_block = record {
    record_size = rs;
    block_offset = block_offset;
    id_offset = id_offset;
    offsets = offsets;
    data_buf = data_buf;
    current_block = current_block;
  }

  flush_lem :
      (offset id : ℕ) (offsets : LateBuilder) (data_buf first : List ℕ) (slices : List (List ℕ))
      → length slices < 8
      → IsShort first
      → All IsShort slices
      → (let bytes = block_bytes rs (length slices + code) first slices in
          offset + length bytes < 2 ^ 64
          → flush io (at offset id offsets data_buf (first ∷ slices))
            ≡ done (
                at
                  (offset + length bytes)
                  id
                  (Late.push offsets (offset + length bytes))
                  (data_buf ++ bytes)
                  (first ∷ slices)))
  unfolding flush
  flush_lem offset id offsets data_buf first slices few hf hs room =
      let written =
        build_block_unchecked_lem io data_buf first slices coded few (omega arith)
          (IsShort-IsSlice slices hs) in
      let bytes = block_bytes rs (length slices + code) first slices in
      let holds : ltb (offset + length bytes) (2 ^ 64) ≡ true = ground (arith, room) in
      rw (written, holds) refl

  -- The ids that `add_all` answers play no part.
  forget :
      (m : Run (List ℕ × SizedDictBufBuilder)) (i : ℕ)
      → ((m >>= λ (ids, b). done (i ∷ ids, b)) >>= λ (ids, b). finalize io b)
        ≡ (m >>= λ (ids, b). finalize io b)
  forget (done x) i = refl
  forget panic i = refl

  -- The strings of a block at hand and those that are added, written by `add_all` and `finalize`.
  write_lem :
      (vals : List (List ℕ)) (offset id : ℕ) (offsets : LateBuilder) (data_buf : List ℕ)
      (cur : List (List ℕ))
      → length cur < 8
      → All IsShort cur
      → All IsShort vals
      → id + length vals < 2 ^ 64
      → offset + length (data_of rs code (blocks_behind cur vals)) < 2 ^ 64
      → (add_all io (at offset id offsets data_buf cur) vals >>= λ (ids, b). finalize io b)
        ≡ done (
          Late.push_vec offsets (ends_from rs code offset (blocks_behind cur vals)),
          data_buf ++ data_of rs code (blocks_behind cur vals),
          offset + length (data_of rs code (blocks_behind cur vals)),
          id + length vals,
        )
  unfolding add_all add finalize blocks_behind ends_from data_of Late.push_vec
  write_lem [] offset id offsets data_buf [] few hc hv ids room =
      outcome refl (sym (append-nil data_buf)) (omega arith) (omega arith)
  write_lem [] offset id offsets data_buf (first ∷ slices) few (hf, hs) hv ids room =
      let bytes = block_bytes rs (length slices + code) first slices in
      let whole = append-nil bytes in
      let size : length (bytes ++ []) ≡ length bytes = ap length whole in
      let written =
        flush_lem offset id offsets data_buf first slices (omega (arith, few)) hf hs
          (omega (arith, room, size)) in
      let filled : ltb 0 (suc (length slices)) ≡ true = ground arith in
      rw (filled, written)
        (outcome refl (ap (λ b. data_buf ++ b) (sym whole)) (omega (arith, size)) (omega arith))
  write_lem (val ∷ vals) offset id offsets data_buf [] few hc (hv, hvs) ids room =
      let counted : ltb (id + 1) (2 ^ 64) ≡ true = ground (arith, ids) in
      let next =
        write_lem vals offset (id + 1) offsets data_buf (val ∷ []) (omega arith) (hv, tt) hvs
          (omega (arith, ids)) room in
      let total : id + 1 + length vals ≡ id + suc (length vals) = omega arith in
      rw counted (
        forget (add_all io (at offset (id + 1) offsets data_buf (val ∷ [])) vals) (id + 1)
        ∙ next
        ∙ outcome refl refl refl total)
  write_lem (val ∷ vals) offset id offsets data_buf (first ∷ slices) few (hf, hs) (hv, hvs) ids
        room =
      let counted : ltb (id + 1) (2 ^ 64) ≡ true = ground (arith, ids) in
      let total : id + 1 + length vals ≡ id + suc (length vals) = omega arith in
      let more = slices ++ (val ∷ []) in
      let size : length more ≡ length slices + 1 = length-append slices (val ∷ []) in
      let shorts = All-snoc IsShort slices val hs hv in
      elim (Bool-cases (length slices == 6)) [
        | inl t ↦
            let full : (suc (length more) == 8) ≡ true = ground (arith, t, size) in
            let bytes = block_bytes rs (length more + code) first more in
            let rest = data_of rs code (blocks_behind [] vals) in
            let room' : offset + length (bytes ++ rest) < 2 ^ 64 = rw t at room in
            let sum = length-append bytes rest in
            let written =
              flush_lem offset (id + 1) offsets data_buf first more (ground (arith, t, size)) hf
                shorts (omega (arith, room', sum)) in
            rw (counted, full, written, t)
              (forget
                  (add_all io
                    (at (offset + length bytes) (id + 1) (Late.push offsets (offset + length bytes))
                      (data_buf ++ bytes) [])
                    vals)
                  (id + 1)
                ∙ write_lem vals (offset + length bytes) (id + 1)
                    (Late.push offsets (offset + length bytes)) (data_buf ++ bytes) [] (omega arith)
                    tt hvs (omega (arith, ids)) (omega (arith, room', sum))
                ∙ outcome refl (append_assoc data_buf bytes rest) (omega (arith, sum)) total)
        | inr f ↦
            let open_block : (suc (length more) == 8) ≡ false = ground (arith, f, size) in
            let room' : offset + length (data_of rs code (blocks_behind (first ∷ more) vals))
                < 2 ^ 64 =
              rw f at room in
            rw (counted, open_block, f)
              (forget (add_all io (at offset (id + 1) offsets data_buf (first ∷ more)) vals)
                  (id + 1)
                ∙ write_lem vals offset (id + 1) offsets data_buf (first ∷ more)
                    (ground (arith, f, few, size)) (hf, shorts) hvs (omega (arith, ids)) room'
                ∙ outcome refl refl refl total)
      ]

  -- Strings of fewer than 2 ^ 60 bytes, one or more and fewer than 2 ^ 64, of the record size where
  -- there is one, and whose blocks have fewer than 2 ^ 64 bytes: `add_all` and `finalize` of a new
  -- builder do not panic; they write the bytes of the blocks of eight that the strings make, hand
  -- out the ends of the blocks, and count the bytes and the strings; and these blocks are all full
  -- but the last.
  pub finalize-add_all :
      (buf first : List ℕ) (vals : List (List ℕ))
      → IsShort first
      → All IsShort vals
      → FitsRecord rs vals
      → length (first ∷ vals) < 2 ^ 64
      → length (data_of rs code (blocks_behind [] (first ∷ vals))) < 2 ^ 64
      → ((add_all io (new rs 0 0 (Late.new buf) []) (first ∷ vals) >>= λ (ids, b). finalize io b)
          ≡ done (
            Late.push_vec (Late.new buf) (ends_from rs code 0 (blocks_behind [] (first ∷ vals))),
            data_of rs code (blocks_behind [] (first ∷ vals)),
            length (data_of rs code (blocks_behind [] (first ∷ vals))),
            length (first ∷ vals),
          ))
        × (strings_of (blocks_behind [] (first ∷ vals)) ≡ first ∷ vals)
        × AreBlocks rs (blocks_behind [] (first ∷ vals))
  unfolding new blocks_behind
  finalize-add_all buf first vals hf hv fits few room = (
    write_lem (first ∷ vals) 0 0 (Late.new buf) [] [] (omega arith) tt (hf, hv) (omega (arith, few))
          (omega (arith, room))
        ∙ outcome refl refl (omega arith) (omega arith),
    strings_of-blocks_behind [] (first ∷ vals),
    blocks_behind-AreBlocks rs first [] vals (omega arith) hf tt hv (FitsRecord-nil rs) fits,
  )
