-- ===== src/Tfc/Block/Build.antt =====
-- What `build_block_unchecked` writes.
use mathlib.Core.List.{append-nil, append_assoc}
use tdb_succinct_wasm.Base.{
  ℕ, ◌+◌, ◌-◌, ◌/◌, ◌^◌, ◌≤◌, ◌<◌, bit_and, ◌≡◌, refl, sym, ap, ◌∙◌, true, inl, inr, Option, none,
  some, List, [], ◌∷◌, ◌++◌, length, length-append, take, drop, take-append_left, length-drop, ltb,
  leb, ◌==◌, All, Run, done, checked_sub, checked_sub_lem, Bool-cases, arith,
}
use tdb_succinct_wasm.Bits.Mask.{bit_and_mask}
use tdb_succinct_wasm.Words.{Buffers}
use tdb_succinct_wasm.VByte.{encoding_len}
use tdb_succinct_wasm.VByte.Encode.{groups, encoding_len-groups, encode_vec_lem}
use tdb_succinct_wasm.Util.Prefix.{common, common_same, common_other, find_common_prefix_lem}
use tdb_succinct_wasm.Tfc.Entry.{join}
use tdb_succinct_wasm.Tfc.Block.{
  block_size, record_size_encoding, record_size_decoding, parse_block_control_word,
  create_block_control_word, put_number, build_entries, put_suffixes, build_block_unchecked,
}

-- The record sizes that there are, with their codes in the control word.
pub data RecordCode : Option ℕ → ℕ → Type 0 where
  any_size : RecordCode none 0
  four : RecordCode (some 4) 24
  eight : RecordCode (some 8) 32

record_code : {rs : Option ℕ} {code : ℕ} → RecordCode rs code → record_size_encoding rs ≡ done code
unfolding record_size_encoding
record_code any_size = refl
record_code four = refl
record_code eight = refl

pub code-le : {rs : Option ℕ} {code : ℕ} → RecordCode rs code → code ≤ 32
code-le any_size = omega arith
code-le four = omega arith
code-le eight = omega arith

decoded :
    {rs : Option ℕ} {code : ℕ} (n : ℕ)
    → RecordCode rs code
    → n < 8
    → parse_block_control_word (n + code) ≡ done (rs, n + 1)
unfolding parse_block_control_word record_size_decoding
decoded n any_size h =
    let kind : (n + 0) / 8 ≡ 0 = omega arith in
    let low : bit_and (n + 0) 7 ≡ n = bit_and_mask 3 (n + 0) ∙ omega arith in rw (kind, low) refl
decoded n four h =
    let kind : (n + 24) / 8 ≡ 3 = omega arith in
    let low : bit_and (n + 24) 7 ≡ n = bit_and_mask 3 (n + 24) ∙ omega arith in rw (kind, low) refl
decoded n eight h =
    let kind : (n + 32) / 8 ≡ 4 = omega arith in
    let low : bit_and (n + 32) 7 ≡ n = bit_and_mask 3 (n + 32) ∙ omega arith in rw (kind, low) refl

pub control_word_lem :
    {rs : Option ℕ} {code : ℕ} (n : ℕ)
    → RecordCode rs code
    → n < 8
    → (create_block_control_word rs (n + 1) ≡ done (n + code))
      × (parse_block_control_word (n + code) ≡ done (rs, n + 1))
unfolding create_block_control_word
control_word_lem {rs} {code} n c h =
    let most = code-le c in
    let before = checked_sub_lem (n + 1) 1 (omega arith) in
    let same : n + 1 - 1 ≡ n = omega arith in
    let byte : ltb (n + code) 256 ≡ true = ground arith in
    (rw (before, same, record_code c, byte) refl, decoded n c h)

-- The shared length and the rest of each string behind `last`.
unfoldable pub entries_of : List ℕ → List (List ℕ) → List (ℕ × List ℕ)
entries_of last [] = []
entries_of last (cur ∷ slices) =
    (common last cur, drop (common last cur) cur) ∷ entries_of cur slices

unfoldable pub suffixes_of : List (ℕ × List ℕ) → List (List ℕ)
suffixes_of [] = []
suffixes_of ((shared, suffix) ∷ es) = suffix ∷ suffixes_of es

-- The bytes of an entry's numbers; the size is left out where it is known.
unfoldable pub size_bytes : Option ℕ → ℕ → List ℕ
size_bytes none size = groups 9 size
size_bytes (some k) size = []

unfoldable pub table : Option ℕ → List (ℕ × List ℕ) → List ℕ
table rs [] = []
table rs ((shared, suffix) ∷ es) = (groups 9 shared ++ size_bytes rs (length suffix)) ++ table rs es

unfoldable pub block_bytes : Option ℕ → ℕ → List ℕ → List (List ℕ) → List ℕ
block_bytes rs cw first slices =
    cw
    ∷ (groups 9 (length first)
        ++ (first
            ++ (table rs (entries_of first slices)
                ++ join (suffixes_of (entries_of first slices)))))

pub common-le : (xs ys : List ℕ) → (common xs ys ≤ length xs) × (common xs ys ≤ length ys)
unfolding common
common-le [] ys = (omega arith, omega arith)
common-le (x ∷ xs) [] = (omega arith, omega arith)
common-le (x ∷ xs) (y ∷ ys) =
    let (a, b) = common-le xs ys in
    elim (Bool-cases (x == y)) [
      | inl t ↦
          (omega (arith, common_same x y xs ys t, a), omega (arith, common_same x y xs ys t, b))
      | inr f ↦ (omega (arith, common_other x y xs ys f), omega (arith, common_other x y xs ys f))
    ]

triple :
    {a a' : List ℕ} {b b' : ℕ} {c c' : List (List ℕ)}
    → a ≡ a'
    → b ≡ b'
    → c ≡ c'
    → ◌≡◌ {A = Run (List ℕ × ℕ × List (List ℕ))} (done (a, b, c)) (done (a', b', c'))
triple p q r = λ i. done (p i, q i, r i)

pair : {a a' : List ℕ} {b b' : ℕ} → a ≡ a' → b ≡ b' → ◌≡◌ {A = List ℕ × ℕ} (a, b) (a', b')
pair p q = λ i. (p i, q i)

-- A string whose length is a `usize`.
abbrev pub IsSlice : List ℕ → Type 0
IsSlice s = length s < 2 ^ 64

module _ (io : Buffers) where
  put_number_lem :
      (buf : List ℕ) (num : ℕ)
      → num < 2 ^ 64
      → put_number io buf num ≡ done (buf ++ groups 9 num, length (groups 9 num))
  unfolding put_number
  put_number_lem buf num h =
      let written = (encode_vec_lem num h).1 in
      let (size, lo, hi) = encoding_len-groups num h in
      let cut : (tail : List ℕ) → take (encoding_len num) (groups 9 num ++ tail) ≡ groups 9 num =
        λ tail.
          ap (λ n. take n (groups 9 num ++ tail)) (sym size)
          ∙ take-append_left (groups 9 num) tail in
      rw (written, cut, io.put_slice_lem buf (groups 9 num), sym size) refl

  put_size :
      (rs : Option ℕ) (buf : List ℕ) (n : ℕ)
      → n < 2 ^ 64
      → (elim rs as (λ x. Run (List ℕ × ℕ)) [ none ↦ put_number io buf n | some k ↦ done (buf, 0) ])
        ≡ done (buf ++ size_bytes rs n, length (size_bytes rs n))
  unfolding size_bytes
  put_size none buf n h = put_number_lem buf n h
  put_size (some k) buf n h = ap (λ b. done (b, 0)) (sym (append-nil buf))

  build_entries_lem :
      (rs : Option ℕ) (slices : List (List ℕ)) (last buf : List ℕ) (size : ℕ)
      (suffixes : List (List ℕ))
      → IsSlice last
      → All IsSlice slices
      → build_entries io rs slices last buf size suffixes
        ≡ done (
          buf ++ table rs (entries_of last slices),
          size + length (table rs (entries_of last slices)),
          suffixes ++ suffixes_of (entries_of last slices),
        )
  unfolding build_entries entries_of table suffixes_of
  build_entries_lem rs [] last buf size suffixes h hs =
      triple (sym (append-nil buf)) (omega arith) (sym (append-nil suffixes))
  build_entries_lem rs (cur ∷ slices) last buf size suffixes h (hc, hs) =
      let shared = common last cur in
      let suffix = drop shared cur in
      let (le_last, le_cur) = common-le last cur in
      let suffix_size : length cur - shared ≡ length suffix = sym (length-drop shared cur) in
      let measured : checked_sub (length cur) shared ≡ done (length suffix) =
        checked_sub_lem (length cur) shared le_cur ∙ ap done suffix_size in
      let g = groups 9 shared in
      let sb = size_bytes rs (length suffix) in
      let rest = table rs (entries_of cur slices) in
      let written = put_number_lem buf shared (omega arith) in
      let sized = put_size rs (buf ++ g) (length suffix) (omega (arith, suffix_size)) in
      let entry = length-append g sb in
      let whole = length-append (g ++ sb) rest in
      rw (find_common_prefix_lem last cur, written, measured, sized)
        (build_entries_lem rs slices cur ((buf ++ g) ++ sb) (size + length g + length sb)
            (suffixes ++ (suffix ∷ [])) hc hs
          ∙ triple (ap (λ b. b ++ rest) (append_assoc buf g sb) ∙ append_assoc buf (g ++ sb) rest)
              (omega (arith, entry, whole))
              (append_assoc suffixes (suffix ∷ []) (suffixes_of (entries_of cur slices))))

  put_suffixes_lem :
      (suffixes : List (List ℕ)) (buf : List ℕ) (size : ℕ)
      → put_suffixes io suffixes buf size ≡ (buf ++ join suffixes, size + length (join suffixes))
  unfolding put_suffixes join
  put_suffixes_lem [] buf size = pair (sym (append-nil buf)) (omega arith)
  put_suffixes_lem (suffix ∷ suffixes) buf size =
      let written = io.put_slice_lem buf suffix in
      rw written (
        put_suffixes_lem suffixes (buf ++ suffix) (size + length suffix)
        ∙ pair (append_assoc buf suffix (join suffixes))
            (omega (arith, length-append suffix (join suffixes))))

  -- For one to eight strings whose lengths are below 2 ^ 64, and a record size that has a code,
  -- `build_block_unchecked` does not panic: it writes behind the buffer the control word, the first
  -- string with its length, the table of the others and their suffixes, and answers the size of it.
  pub build_block_unchecked_lem :
      {rs : Option ℕ} {code : ℕ} (buf first : List ℕ) (slices : List (List ℕ))
      → RecordCode rs code
      → length slices < 8
      → IsSlice first
      → All IsSlice slices
      → build_block_unchecked io rs buf (first ∷ slices)
        ≡ done (
          buf ++ block_bytes rs (length slices + code) first slices,
          length (block_bytes rs (length slices + code) first slices),
        )
  unfolding build_block_unchecked block_bytes
  build_block_unchecked_lem {rs} {code} buf first slices c short h hs =
      let n = length slices in
      let few : leb (n + 1) block_size ≡ true = ground arith in
      let (created, _) = control_word_lem n c short in
      let cw = n + code in
      let head = groups 9 (length first) in
      let es = entries_of first slices in
      let tab = table rs es in
      let tail = join (suffixes_of es) in
      let byte = io.put_u8_lem buf cw (omega (arith, code-le c)) in
      let written = put_number_lem (buf ++ (cw ∷ [])) (length first) h in
      let headed = io.put_slice_lem ((buf ++ (cw ∷ [])) ++ head) first in
      let built =
        build_entries_lem rs slices first (((buf ++ (cw ∷ [])) ++ head) ++ first)
          (1 + length head + length first) [] h hs in
      let suffixed =
        put_suffixes_lem (suffixes_of es) ((((buf ++ (cw ∷ [])) ++ head) ++ first) ++ tab)
          (1 + length head + length first + length tab) in
      rw (few, created, byte, written, headed, built, suffixed)
        (ap done (
          pair (simp append_assoc) (
            omega (
              arith,
              length-append head (first ++ (tab ++ tail)),
              length-append first (tab ++ tail),
              length-append tab tail,
            ))))
