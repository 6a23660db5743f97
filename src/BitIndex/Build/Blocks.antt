-- ===== src/BitIndex/Build/Blocks.antt =====
-- What the construction of an index pushes into the two arrays of ranks.
use mathlib.Core.List.{append-nil, append_assoc}
use tdb_succinct_wasm.Base.{
  ℕ, ◌+◌, ◌-◌, ◌*◌, ◌^◌, ◌≤◌, ◌<◌, ◌≡◌, refl, ◌∙◌, List, [], ◌∷◌, ◌++◌, map, length, All, done,
  checked_sub_lem, arith,
}
use tdb_succinct_wasm.Bits.Count.{count_ones, ones_below-le}
use tdb_succinct_wasm.Words.{Buffers}
use tdb_succinct_wasm.LogArray.Builder
use tdb_succinct_wasm.LogArray.Builder.Push.{Encodes}
use tdb_succinct_wasm.LogArray.Builder.Step.{push-Encodes}
use tdb_succinct_wasm.BitIndex.{sblock_size}
use tdb_succinct_wasm.BitIndex.Build.{sum, push_block_ranks, push_chunks}

-- The ranks of the blocks of a superblock: what is left of it from the block on.
unfoldable pub block_values : ℕ → List ℕ → List ℕ
block_values subrank [] = []
block_values subrank (r ∷ rs) = subrank ∷ block_values (subrank - r) rs

-- All the block ranks, and the superblock ranks behind a first rank.
unfoldable pub all_block_values : List (List ℕ) → List ℕ
all_block_values [] = []
all_block_values (chunk ∷ chunks) =
    let ranks = map count_ones chunk in block_values (sum ranks) ranks ++ all_block_values chunks

unfoldable pub sblock_values : ℕ → List (List ℕ) → List ℕ
sblock_values rank [] = []
sblock_values rank (chunk ∷ chunks) =
    let next = rank + sum (map count_ones chunk) in next ∷ sblock_values next chunks

-- A number of words has at most 64 ones each.
pub sum-count_ones-le : (ws : List ℕ) → sum (map count_ones ws) ≤ 64 * length ws
unfolding sum count_ones
sum-count_ones-le [] = omega arith
sum-count_ones-le (w ∷ ws) = omega (arith, ones_below-le 64 w, sum-count_ones-le ws)

module _ (io : Buffers) where
  push_block_ranks-Encodes :
      (ranks : List ℕ) (subrank : ℕ) {b : Builder.Builder} {vs : List ℕ}
      → Encodes [] b vs
      → subrank ≡ sum ranks
      → subrank < 2 ^ b.width
      → (b' : Builder.Builder) × (push_block_ranks io b subrank ranks ≡ done b')
        × (b'.width ≡ b.width)
        × Encodes [] b' (vs ++ block_values subrank ranks)
  unfolding push_block_ranks sum block_values
  push_block_ranks-Encodes [] subrank {b} {vs} enc e h = (b, refl, refl, rw (append-nil vs) enc)
  push_block_ranks-Encodes (r ∷ rs) subrank {b} {vs} enc e h =
      let (b1, first, same, enc1) = push-Encodes io enc subrank h in
      let taken = checked_sub_lem subrank r (omega (arith, e)) in
      let (b2, rest, same', enc2) =
        push_block_ranks-Encodes rs (subrank - r) enc1 (omega (arith, e))
          (rw same (omega (arith, h))) in
      (
        b2,
        rw (first, taken, rest) refl,
        same' ∙ same,
        rw (append_assoc vs (subrank ∷ []) (block_values (subrank - r) rs)) at enc2,
      )

  pub push_chunks-Encodes :
      (chunks : List (List ℕ)) (rank total : ℕ) {b s : Builder.Builder} {bl sl : List ℕ}
      → Encodes [] b bl
      → Encodes [] s sl
      → All (λ chunk. length chunk ≤ sblock_size) chunks
      → b.width ≡ 12
      → s.width ≡ 64
      → rank + sum (map (λ chunk. sum (map count_ones chunk)) chunks) ≤ total
      → total < 2 ^ 64
      → (b' s' : Builder.Builder) × (push_chunks io b s rank chunks ≡ done (b', s'))
        × (b'.width ≡ 12)
        × (s'.width ≡ 64)
        × Encodes [] b' (bl ++ all_block_values chunks)
        × Encodes [] s' (sl ++ sblock_values rank chunks)
  unfolding push_chunks sum all_block_values sblock_values
  push_chunks-Encodes [] rank total {b} {s} {bl} {sl} encb encs short wb ws h t =
      (b, s, refl, wb, ws, rw (append-nil bl) encb, rw (append-nil sl) encs)
  push_chunks-Encodes (chunk ∷ chunks) rank total {b} {s} {bl} {sl} encb encs (short, shorts) wb ws
        h t =
      let ranks = map count_ones chunk in
      let most = sum-count_ones-le chunk in
      let (b1, run1, same1, encb1) =
        push_block_ranks-Encodes ranks (sum ranks) encb refl (rw wb (omega (arith, most))) in
      let (s1, run2, same2, encs1) =
        push-Encodes io encs (rank + sum ranks) (rw ws (omega (arith, h))) in
      let (b2, s2, run3, wb2, ws2, encb2, encs2) =
        push_chunks-Encodes chunks (rank + sum ranks) total encb1 encs1 shorts (same1 ∙ wb)
          (same2 ∙ ws) (omega (arith, h)) t in
      (
        b2,
        s2,
        rw (run1, run2, run3) refl,
        wb2,
        ws2,
        rw (append_assoc bl (block_values (sum ranks) ranks) (all_block_values chunks)) at encb2,
        rw (append_assoc sl ((rank + sum ranks) ∷ []) (sblock_values (rank + sum ranks) chunks)) at
            encs2,
      )
