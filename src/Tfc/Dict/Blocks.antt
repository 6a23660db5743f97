-- ===== src/Tfc/Dict/Blocks.antt =====
-- The blocks of a dictionary: their strings, their bytes one behind the other, and where each starts.
use tdb_succinct_wasm.Base.{
  ℕ, zero, suc, ◌+◌, ◌*◌, ◌≤◌, ◌<◌, ◌≡◌, refl, sym, ap, ◌∙◌, Option, List, [], ◌∷◌, ◌++◌, length,
  length-append, All, drop, drop-drop, drop-append_left, done, arith,
}
use tdb_succinct_wasm.Words.{byte_at}
use tdb_succinct_wasm.Tfc.Block.Build.{block_bytes}
use tdb_succinct_wasm.Tfc.Block.Parse.{IsShort, FitsRecord}
use tdb_succinct_wasm.Tfc.Block.Strings.{string_at}

-- A block by its first string and the others.
unfoldable pub strings_of : List (List ℕ × List (List ℕ)) → List (List ℕ)
strings_of [] = []
strings_of ((first, slices) ∷ bs) = (first ∷ slices) ++ strings_of bs

unfoldable pub block_strings : List (List ℕ × List (List ℕ)) → ℕ → List (List ℕ)
block_strings [] i = []
block_strings ((first, slices) ∷ bs) zero = first ∷ slices
block_strings (b ∷ bs) (suc i) = block_strings bs i

-- Blocks of short strings, all full but the last.
unfoldable pub AreBlocks : Option ℕ → List (List ℕ × List (List ℕ)) → Type 0
AreBlocks rs [] = Unit {0}
AreBlocks rs ((first, slices) ∷ bs) =
    (length slices < 8)
    × IsShort first
    × All IsShort slices
    × FitsRecord rs slices
    × (0 < length bs → length slices ≡ 7)
    × AreBlocks rs bs

module _ (rs : Option ℕ) (code : ℕ) where
  unfoldable pub data_of : List (List ℕ × List (List ℕ)) → List ℕ
  data_of [] = []
  data_of ((first, slices) ∷ bs) = block_bytes rs (length slices + code) first slices ++ data_of bs

  unfoldable pub start_of : List (List ℕ × List (List ℕ)) → ℕ → ℕ
  start_of bs zero = 0
  start_of [] (suc i) = 0
  start_of ((first, slices) ∷ bs) (suc i) =
      length (block_bytes rs (length slices + code) first slices) + start_of bs i

  -- The block of an index, with the bytes from its start on.
  pub record BlockAt (bs : List (List ℕ × List (List ℕ))) (i : ℕ) : Type 0 where
    pub first : List ℕ
    pub slices : List (List ℕ)
    pub behind : List ℕ
    pub strings : block_strings bs i ≡ first ∷ slices
    pub few : length slices < 8
    pub short : IsShort first
    pub shorts : All IsShort slices
    pub fits : FitsRecord rs slices
    pub inside : start_of bs i ≤ length (data_of bs)
    pub bytes :
        drop (start_of bs i) (data_of bs)
        ≡ block_bytes rs (length slices + code) first slices ++ behind

  pub block_at :
      (bs : List (List ℕ × List (List ℕ))) (i : ℕ) → AreBlocks rs bs → i < length bs → BlockAt bs i
  unfolding AreBlocks block_strings start_of data_of
  block_at [] i h lt = absurd (omega arith)
  block_at ((first, slices) ∷ bs) zero (few, short, shorts, fits, full, h) lt = record {
    first = first;
    slices = slices;
    behind = data_of bs;
    strings = refl;
    few = few;
    short = short;
    shorts = shorts;
    fits = fits;
    inside = omega arith;
    bytes = refl;
  }
  block_at ((first, slices) ∷ bs) (suc i) (few, short, shorts, fits, full, h) lt =
      let rest = block_at bs i h (omega arith) in
      let here = block_bytes rs (length slices + code) first slices in
      record {
        first = rest.first;
        slices = rest.slices;
        behind = rest.behind;
        strings = rest.strings;
        few = rest.few;
        short = rest.short;
        shorts = rest.shorts;
        fits = rest.fits;
        inside = omega (arith, rest.inside, length-append here (data_of bs));
        bytes =
            sym (drop-drop (length here) (start_of bs i) (here ++ data_of bs))
            ∙ ap (drop (start_of bs i)) (drop-append_left here (data_of bs))
            ∙ rest.bytes;
      }

string_at-append_left :
    (xs ys : List (List ℕ)) (i : ℕ) → i < length xs → string_at (xs ++ ys) i ≡ string_at xs i
string_at-append_left [] ys i h = absurd (omega arith)
string_at-append_left (x ∷ xs) ys zero h = refl
string_at-append_left (x ∷ xs) ys (suc i) h = string_at-append_left xs ys i (omega arith)

string_at-append_right :
    (xs ys : List (List ℕ)) (i j : ℕ) → j ≡ length xs + i → string_at (xs ++ ys) j ≡ string_at ys i
string_at-append_right [] ys i j e = ap (string_at ys) (omega (arith, e))
string_at-append_right (x ∷ xs) ys i zero e = absurd (omega (arith, e))
string_at-append_right (x ∷ xs) ys i (suc j) e = string_at-append_right xs ys i j (omega (arith, e))

-- A string by its block and its place there.
pub string_at-strings_of :
    (rs : Option ℕ) (bs : List (List ℕ × List (List ℕ))) (q r k : ℕ)
    → AreBlocks rs bs
    → r < 8
    → k ≡ 8 * q + r
    → k < length (strings_of bs)
    → (q < length bs)
      × (r < length (block_strings bs q))
      × (string_at (block_strings bs q) r ≡ string_at (strings_of bs) k)
unfolding AreBlocks strings_of block_strings
string_at-strings_of rs [] q r k h small e lt = absurd (omega arith)
string_at-strings_of rs ((first, slices) ∷ []) zero r k h small e lt =
    let size = length-append (first ∷ slices) [] in
    let inside : r < length (first ∷ slices) = omega (arith, size, e, lt) in
    let same : k ≡ r = omega (arith, e) in
    (
      omega arith,
      inside,
      sym (
          ap (string_at ((first ∷ slices) ++ [])) same
          ∙ string_at-append_left (first ∷ slices) [] r inside),
    )
string_at-strings_of rs ((first, slices) ∷ b ∷ bs) zero r k (few, _, _, _, full, h) small e lt =
    let inside : r < length (first ∷ slices) = omega (arith, full (omega arith), small) in
    let same : k ≡ r = omega (arith, e) in
    (
      omega arith,
      inside,
      sym (
          ap (string_at ((first ∷ slices) ++ strings_of (b ∷ bs))) same
          ∙ string_at-append_left (first ∷ slices) (strings_of (b ∷ bs)) r inside),
    )
string_at-strings_of rs ((first, slices) ∷ []) (suc q) r k (few, _, _, _, _, _) small e lt =
    let size = length-append (first ∷ slices) [] in absurd (omega (arith, size, e, lt, few))
string_at-strings_of rs ((first, slices) ∷ b ∷ bs) (suc q) r k (few, _, _, _, full, h) small e lt =
    let exact = full (omega arith) in
    let size = length-append (first ∷ slices) (strings_of (b ∷ bs)) in
    let (block, inside, same) =
      string_at-strings_of rs (b ∷ bs) q r (8 * q + r) h small refl
        (omega (arith, size, e, lt, exact)) in
    (
      omega (arith, block),
      inside,
      same
          ∙ sym (
              string_at-append_right (first ∷ slices) (strings_of (b ∷ bs)) (8 * q + r) k
                (omega (arith, e, exact))),
    )

pub place_lem :
    (rs : Option ℕ) (bs : List (List ℕ × List (List ℕ))) (i r : ℕ)
    → AreBlocks rs bs
    → i < length bs
    → r < length (block_strings bs i)
    → 8 * i + r < length (strings_of bs)
unfolding AreBlocks strings_of block_strings
place_lem rs [] i r h lt small = absurd (omega arith)
place_lem rs ((first, slices) ∷ bs) zero r h lt small =
    omega (arith, length-append (first ∷ slices) (strings_of bs), small)
place_lem rs ((first, slices) ∷ bs) (suc i) r (few, _, _, _, full, h) lt small = omega (
  arith,
  length-append (first ∷ slices) (strings_of bs),
  full (omega arith),
  place_lem rs bs i r h (omega arith) small,
)

pub length-strings_of :
    (rs : Option ℕ) (bs : List (List ℕ × List (List ℕ))) (last : ℕ)
    → AreBlocks rs bs
    → length bs ≡ suc last
    → length (strings_of bs) ≡ last * 8 + length (block_strings bs last)
unfolding AreBlocks strings_of block_strings
length-strings_of rs [] last h e = absurd (omega (arith, e))
length-strings_of rs ((first, slices) ∷ []) zero (few, _, _, _, full, h) e =
    omega (arith, length-append (first ∷ slices) [])
length-strings_of rs (b ∷ []) (suc last) h e = absurd (omega (arith, e))
length-strings_of rs (b ∷ b' ∷ bs) zero h e = absurd (omega (arith, e))
length-strings_of rs ((first, slices) ∷ b ∷ bs) (suc last) (few, _, _, _, full, h) e = omega (
  arith,
  full (omega arith),
  length-append (first ∷ slices) (strings_of (b ∷ bs)),
  length-strings_of rs (b ∷ bs) last h (omega (arith, e)),
)

-- The head of what is left from an index on is the element there.
pub byte_at-drop :
    (xs : List ℕ) (i x : ℕ) (rest : List ℕ) → drop i xs ≡ x ∷ rest → byte_at xs i ≡ done x
byte_at-drop [] zero x rest h = absurd cc
byte_at-drop [] (suc i) x rest h = absurd cc
byte_at-drop (y ∷ xs) zero x rest h = let same : y ≡ x = cc in ap done same
byte_at-drop (y ∷ xs) (suc i) x rest h = byte_at-drop xs i x rest h
