-- ===== src/Tfc/Block/Parse.antt =====
-- What `build_block_unchecked` writes, `parse` reads.
use mathlib.Core.List.{append-nil, append_assoc}
use tdb_succinct_wasm.Base.{
  ℕ, zero, suc, ◌+◌, ◌-◌, ◌*◌, ◌^◌, ◌≤◌, ◌<◌, ◌≡◌, refl, ap, ◌∙◌, true, false, Option, none, some,
  List, [], ◌∷◌, ◌++◌, length, length-append, length-drop, drop, take-append_left, drop-append_left,
  replicate, ltb, All, done, checked_sub, checked_sub_lem, ok, arith,
}
use tdb_succinct_wasm.Words.{Buffers}
use tdb_succinct_wasm.VByte.Encode.{groups}
use tdb_succinct_wasm.VByte.Decode.Groups.{decode_buf-groups}
use tdb_succinct_wasm.Util.Prefix.{common}
use tdb_succinct_wasm.BitIndex.Build.{sum}
use tdb_succinct_wasm.Tfc.Entry.{join}
use tdb_succinct_wasm.Tfc.Block.{
  SizedBlockHeader, SizedDictBlock, bytes_buf, decode_number, parse_sizes, parse_entries, padded,
  sizes_of, shareds_of, parse_header, parse,
}
use tdb_succinct_wasm.Tfc.Block.Build.{
  RecordCode, control_word_lem, entries_of, suffixes_of, size_bytes, table, block_bytes, common-le,
}

-- A string that is short enough for the sizes of a block to add up.
abbrev pub IsShort : List ℕ → Type 0
IsShort s = length s < 2 ^ 60

-- With a record size, the strings behind the head have it.
unfoldable pub FitsRecord : Option ℕ → List (List ℕ) → Type 0
FitsRecord none slices = Unit {0}
FitsRecord (some k) slices = All (λ s. length s ≡ k) slices

-- The numbers of the entries.
unfoldable pub numbers_of : List (ℕ × List ℕ) → List (ℕ × ℕ)
numbers_of [] = []
numbers_of ((shared, suffix) ∷ es) = (shared, length suffix) ∷ numbers_of es

-- The block that holds a list of strings.
abbrev pub header_of : List ℕ → List (List ℕ) → SizedBlockHeader
header_of first slices = record {
  head = first;
  num_entries = length slices + 1;
  buffer_length = sum (padded (sizes_of (numbers_of (entries_of first slices))));
  sizes = padded (sizes_of (numbers_of (entries_of first slices)));
  shareds = padded (shareds_of (numbers_of (entries_of first slices)));
}

abbrev pub block_of : List ℕ → List (List ℕ) → SizedDictBlock
block_of first slices = record {
  header = header_of first slices;
  data_bytes = join (suffixes_of (entries_of first slices));
}

sum-append : (xs ys : List ℕ) → sum (xs ++ ys) ≡ sum xs + sum ys
unfolding sum
sum-append [] ys = omega arith
sum-append (x ∷ xs) ys = omega (arith, sum-append xs ys)

sum-zeros : (n : ℕ) → sum (replicate n 0) ≡ 0
unfolding sum
sum-zeros zero = refl
sum-zeros (suc n) = omega (arith, sum-zeros n)

sum-sizes :
    (es : List (ℕ × List ℕ)) → sum (sizes_of (numbers_of es)) ≡ length (join (suffixes_of es))
unfolding sum sizes_of numbers_of suffixes_of join
sum-sizes [] = refl
sum-sizes ((shared, suffix) ∷ es) =
    omega (arith, sum-sizes es, length-append suffix (join (suffixes_of es)))

buffer_length_lem :
    (first : List ℕ) (slices : List (List ℕ))
    → sum (padded (sizes_of (numbers_of (entries_of first slices))))
      ≡ length (join (suffixes_of (entries_of first slices)))
buffer_length_lem first slices =
    let sizes = sizes_of (numbers_of (entries_of first slices)) in
    sum-append sizes (replicate (7 - length sizes) 0)
    ∙ omega (arith, sum-zeros (7 - length sizes), sum-sizes (entries_of first slices))

-- The suffixes of few short strings fit a buffer.
length-suffixes :
    (last : List ℕ) (slices : List (List ℕ))
    → All IsShort slices
    → length (join (suffixes_of (entries_of last slices))) ≤ 2 ^ 60 * length slices
unfolding entries_of suffixes_of join
length-suffixes last [] h = omega arith
length-suffixes last (cur ∷ slices) (hc, hs) = omega (
  arith,
  length-suffixes cur slices hs,
  length-drop (common last cur) cur,
  length-append (drop (common last cur) cur) (join (suffixes_of (entries_of cur slices))),
)

pub FitsRecord-tail :
    (rs : Option ℕ) (cur : List ℕ) (slices : List (List ℕ))
    → FitsRecord rs (cur ∷ slices)
    → FitsRecord rs slices
unfolding FitsRecord
FitsRecord-tail none cur slices fits = tt
FitsRecord-tail (some k) cur slices (fit, fits) = fits

module _ (io : Buffers) where
  pub decode_number_lem :
      (num : ℕ) (rest : List ℕ)
      → num < 2 ^ 64
      → decode_number io (groups 9 num ++ rest) ≡ done (ok (num, rest))
  unfolding decode_number
  decode_number_lem num rest h =
      let (b', run, left) =
        decode_buf-groups (bytes_buf io) num (groups 9 num ++ rest) rest h refl in
      rw (run, left) refl

  parse_sizes_lem :
      (rs : Option ℕ) (last cur : List ℕ) (slices : List (List ℕ)) (rest : List ℕ)
      → IsShort last
      → IsShort cur
      → FitsRecord rs (cur ∷ slices)
      → parse_sizes io rs (
          (groups 9 (common last cur) ++ size_bytes rs (length (drop (common last cur) cur)))
          ++ rest)
        ≡ done (ok ((common last cur, length (drop (common last cur) cur)), rest))
  unfolding parse_sizes size_bytes FitsRecord
  parse_sizes_lem none last cur slices rest h hc fits =
      let shared = common last cur in
      let size = length (drop shared cur) in
      let (le_last, le_cur) = common-le last cur in
      rw
        (
          append_assoc (groups 9 shared) (groups 9 size) rest,
          decode_number_lem shared (groups 9 size ++ rest) (omega arith),
          decode_number_lem size rest (omega (arith, length-drop shared cur)),
        )
        refl
  parse_sizes_lem (some k) last cur slices rest h hc (fits, _) =
      let shared = common last cur in
      let (le_last, le_cur) = common-le last cur in
      let measured : checked_sub k shared ≡ done (length (drop shared cur)) =
        checked_sub_lem k shared (omega (arith, fits))
        ∙ ap done (omega (arith, fits, length-drop shared cur)) in
      rw (append-nil (groups 9 shared), decode_number_lem shared rest (omega arith), measured) refl

  parse_entries_lem :
      (rs : Option ℕ) (slices : List (List ℕ)) (last rest : List ℕ)
      → IsShort last
      → All IsShort slices
      → FitsRecord rs slices
      → parse_entries io (length slices) rs (table rs (entries_of last slices) ++ rest)
        ≡ done (ok (numbers_of (entries_of last slices), rest))
  unfolding parse_entries table entries_of numbers_of
  parse_entries_lem rs [] last rest h hs fits = refl
  parse_entries_lem rs (cur ∷ slices) last rest h (hc, hs) fits =
      let shared = common last cur in
      let entry = groups 9 shared ++ size_bytes rs (length (drop shared cur)) in
      let tail = table rs (entries_of cur slices) in
      rw
        (
          append_assoc entry tail rest,
          parse_sizes_lem rs last cur slices (tail ++ rest) h hc fits,
          parse_entries_lem rs slices cur rest hc hs (FitsRecord-tail rs cur slices fits),
        )
        refl

  pub split_to-append : (xs ys : List ℕ) → io.split_to (xs ++ ys) (length xs) ≡ done (xs, ys)
  split_to-append xs ys =
      let cut = io.split_to_lem (xs ++ ys) (length xs) (omega (arith, length-append xs ys)) in
      rw cut (rw (take-append_left xs ys, drop-append_left xs ys) refl)

  -- One to eight strings of fewer than 2 ^ 60 bytes, of the record size where there is one, are
  -- read back from what is written of them, whatever bytes follow: `parse` accepts them and leaves
  -- those bytes.
  pub parse-block_bytes :
      {rs : Option ℕ} {code : ℕ} (first : List ℕ) (slices : List (List ℕ)) (rest : List ℕ)
      → RecordCode rs code
      → length slices < 8
      → IsShort first
      → All IsShort slices
      → FitsRecord rs slices
      → parse io (block_bytes rs (length slices + code) first slices ++ rest)
        ≡ done (ok (block_of first slices, rest))
  unfolding parse parse_header block_bytes
  parse-block_bytes {rs} {code} first slices rest c few h hs fits =
      let n = length slices in
      let es = entries_of first slices in
      let tab = table rs es in
      let tail = join (suffixes_of es) in
      let (_, read) = control_word_lem n c few in
      let cut =
        append_assoc (groups 9 (length first)) (first ++ (tab ++ tail)) rest
        ∙ ap (λ l. groups 9 (length first) ++ l)
            (append_assoc first (tab ++ tail) rest
              ∙ ap (λ l. first ++ l) (append_assoc tab tail rest)) in
      let sized =
        decode_number_lem (length first) (first ++ (tab ++ (tail ++ rest))) (omega arith) in
      let headed = split_to-append first (tab ++ (tail ++ rest)) in
      let counted : n + 1 - 1 ≡ n = omega arith in
      let entries = parse_entries_lem rs slices first (tail ++ rest) h hs fits in
      let total = buffer_length_lem first slices in
      let small : ltb (sum (padded (sizes_of (numbers_of es)))) (2 ^ 64) ≡ true =
        ground (arith, total, length-suffixes first slices hs, few) in
      let enough : ltb (io.remaining (tail ++ rest)) (sum (padded (sizes_of (numbers_of es))))
          ≡ false =
        ground (arith, total, io.remaining_lem (tail ++ rest), length-append tail rest) in
      let split = ap (io.split_to (tail ++ rest)) total ∙ split_to-append tail rest in
      rw
        (
          io.get_u8_cons (n + code) _,
          read,
          cut,
          sized,
          headed,
          counted,
          entries,
          small,
          enough,
          split,
        )
        refl
