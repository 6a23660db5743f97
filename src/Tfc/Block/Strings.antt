-- ===== src/Tfc/Block/Strings.antt =====
-- The strings that a block stands for, and how its header and data hold them.
use mathlib.Core.List.{append_assoc}
use tdb_succinct_wasm.Base.{
  ℕ, zero, suc, ◌+◌, ◌-◌, ◌≤◌, ◌<◌, ◌≡◌, refl, sym, ap, ◌∙◌, false, List, [], ◌∷◌, ◌++◌, length,
  length-append, get_or, take, drop, drop-append_left, drop-take_add, take-append_le, replicate,
  ltb, done, arith,
}
use tdb_succinct_wasm.Words.{byte_at, slice}
use tdb_succinct_wasm.Util.Prefix.{common}
use tdb_succinct_wasm.BitIndex.Build.{sum}
use tdb_succinct_wasm.Tfc.Entry.{join}
use tdb_succinct_wasm.Tfc.Block.{SizedDictBlock, sizes_of, shareds_of}
use tdb_succinct_wasm.Tfc.Block.Build.{entries_of, suffixes_of}
use tdb_succinct_wasm.Tfc.Block.Parse.{numbers_of, block_of}

-- A string by its index, what it shares with the one before, and what it adds.
abbrev pub string_at : List (List ℕ) → ℕ → List ℕ
string_at strings i = get_or strings i []

unfoldable pub shared_at : List (List ℕ) → ℕ → ℕ
shared_at strings zero = 0
shared_at strings (suc i) = common (string_at strings i) (string_at strings (suc i))

unfoldable pub suffix_at : List (List ℕ) → ℕ → List ℕ
unfolding shared_at
suffix_at strings i = drop (shared_at strings i) (string_at strings i)

-- The offset of a suffix in the data, by the index of the entry behind it.
abbrev pub offset_at : SizedDictBlock → ℕ → ℕ
offset_at b i = sum (take i b.header.sizes)

pub record Holds (b : SizedDictBlock) (strings : List (List ℕ)) : Type 0 where
  pub head : b.header.head ≡ string_at strings 0
  pub count : b.header.num_entries ≡ length strings
  pub shared :
      (i : ℕ)
      → suc i < length strings
      → byte_at b.header.shareds i ≡ done (shared_at strings (suc i))
  pub size :
      (i : ℕ)
      → suc i < length strings
      → byte_at b.header.sizes i ≡ done (length (suffix_at strings (suc i)))
  pub piece :
      (i k : ℕ)
      → suc i < length strings
      → k ≤ length (suffix_at strings (suc i))
      → slice b.data_bytes (offset_at b i) (offset_at b i + k)
        ≡ done (take k (suffix_at strings (suc i)))

pub slice-append :
    (before mid after : List ℕ) (k : ℕ)
    → k ≤ length mid
    → slice (before ++ (mid ++ after)) (length before) (length before + k) ≡ done (take k mid)
slice-append before mid after k h =
    let low : ltb (length before + k) (length before) ≡ false = ground arith in
    let high : ltb (length (before ++ (mid ++ after))) (length before + k) ≡ false =
      ground (arith, length-append before (mid ++ after), length-append mid after) in
    rw (low, high)
      (ap done (
        drop-take_add (length before) k (before ++ (mid ++ after))
        ∙ ap (take k) (drop-append_left before (mid ++ after))
        ∙ take-append_le k mid after h))

shared_lem :
    (last : List ℕ) (slices : List (List ℕ)) (pad : List ℕ) (i : ℕ)
    → i < length slices
    → byte_at (shareds_of (numbers_of (entries_of last slices)) ++ pad) i
      ≡ done (shared_at (last ∷ slices) (suc i))
unfolding shareds_of numbers_of entries_of shared_at
shared_lem last [] pad i h = absurd (omega arith)
shared_lem last (cur ∷ slices) pad zero h = refl
shared_lem last (cur ∷ slices) pad (suc i) h = shared_lem cur slices pad i (omega arith)

size_lem :
    (last : List ℕ) (slices : List (List ℕ)) (pad : List ℕ) (i : ℕ)
    → i < length slices
    → byte_at (sizes_of (numbers_of (entries_of last slices)) ++ pad) i
      ≡ done (length (suffix_at (last ∷ slices) (suc i)))
unfolding sizes_of numbers_of entries_of suffix_at shared_at
size_lem last [] pad i h = absurd (omega arith)
size_lem last (cur ∷ slices) pad zero h = refl
size_lem last (cur ∷ slices) pad (suc i) h = size_lem cur slices pad i (omega arith)

-- The data around a suffix.
record Cut (data_bytes : List ℕ) (offset : ℕ) (suffix : List ℕ) : Type 0 where
  before : List ℕ
  after : List ℕ
  whole : data_bytes ≡ before ++ (suffix ++ after)
  start : length before ≡ offset

suffix-Cut :
    (last : List ℕ) (slices : List (List ℕ)) (pad : List ℕ) (i : ℕ)
    → i < length slices
    → Cut
        (join (suffixes_of (entries_of last slices)))
        (sum (take i (sizes_of (numbers_of (entries_of last slices)) ++ pad)))
        (suffix_at (last ∷ slices) (suc i))
unfolding join suffixes_of sizes_of numbers_of entries_of suffix_at shared_at sum
suffix-Cut last [] pad i h = absurd (omega arith)
suffix-Cut last (cur ∷ slices) pad zero h = record {
  before = [];
  after = join (suffixes_of (entries_of cur slices));
  whole = refl;
  start = refl;
}
suffix-Cut last (cur ∷ slices) pad (suc i) h =
    let c = suffix-Cut cur slices pad i (omega arith) in
    let added = drop (common last cur) cur in
    record {
      before = added ++ c.before;
      after = c.after;
      whole = ap (λ t. added ++ t) c.whole ∙ sym (append_assoc added c.before _);
      start = length-append added c.before ∙ ap (λ n. length added + n) c.start;
    }

-- The block that is read back holds the strings it was made of.
pub block_of-Holds :
    (first : List ℕ) (slices : List (List ℕ)) → Holds (block_of first slices) (first ∷ slices)
block_of-Holds first slices =
    let n = length (sizes_of (numbers_of (entries_of first slices))) in
    record {
      head = refl;
      count = omega arith;
      shared = λ i h. shared_lem first slices _ i (omega arith);
      size = λ i h. size_lem first slices _ i (omega arith);
      piece = λ i k h le.
          let c = suffix-Cut first slices (replicate (7 - n) 0) i (omega arith) in
          rw (sym c.start, c.whole) (slice-append c.before _ c.after k le);
    }
