-- ===== src/Tests/Arrays.antt =====
-- Runs of the arrays and their indexes.
use tdb_succinct_wasm.Base.{
  ℕ, ◌≤◌, zero, suc, ◌+◌, ◌-◌, ◌*◌, ◌^◌, ◌<◌, ◌≡◌, ◌≢◌, ◌⊎◌, refl, Bool, true, false, none, some,
  Option, List, [], ◌∷◌, ◌++◌, length, get_or, done, panic, ok, ◌>>=◌, arith, sym, All,
}
use tdb_succinct_wasm.LogArray.{LogArray, parse, parse_header_first, entry, parse_control_word}
use tdb_succinct_wasm.LogArray.Builder
use tdb_succinct_wasm.LogArray.Builder.{Builder}
use tdb_succinct_wasm.LogArray.Builder.Push.{Encodes}
use tdb_succinct_wasm.LogArray.Builder.Finalize.{header, new-Encodes, push_cases}
use tdb_succinct_wasm.LogArray.Entry
use tdb_succinct_wasm.LogArray.Entry.{entry-Represents}
use tdb_succinct_wasm.LogArray.RoundTrip.{array_of, parse-finalize, parse_control_word-header}
use tdb_succinct_wasm.LogArray.Late
use tdb_succinct_wasm.LogArray.Late.RoundTrip.{parse_header_first-finalize}
use tdb_succinct_wasm.Monotonic.{MonotonicLogArray, nearest_index_of, index_of}
use tdb_succinct_wasm.Monotonic.Search.{
  IsIncreasing, IsNearest, nearest_index_of-IsNearest, index_of_lem,
}
use tdb_succinct_wasm.BitArray
use tdb_succinct_wasm.BitArray.{BitArray}
use tdb_succinct_wasm.BitArray.Get
use tdb_succinct_wasm.BitArray.Get.{ones, digit}
use tdb_succinct_wasm.BitArray.Builder as BitBuilder
use tdb_succinct_wasm.BitArray.Builder.RoundTrip.{from_bits-finalize}
use tdb_succinct_wasm.BitIndex.{BitIndex, rank1, rank1_from_range, rank0_from_range}
use tdb_succinct_wasm.AdjacencyList
use tdb_succinct_wasm.AdjacencyList.{AdjacencyList, left_count, left_at_pos, pair_at_pos}
use tdb_succinct_wasm.AdjacencyList.Pairs.{Holds, pairs_from, collect-pair_at_pos}
use tdb_succinct_wasm.BitIndex.Rank.{IsIndexed, word_ones, rank1-ones}
use tdb_succinct_wasm.BitIndex.Ranges.{ranks_from_range}
use tdb_succinct_wasm.BitIndex.Select.{select_from_range_opt_linear}
use tdb_succinct_wasm.BitIndex.Select.Linear.{Selects, select_from_range_opt_linear-Selects}
use tdb_succinct_wasm.Words.Stream.{be_words, IsWord, stream_bit, stream_bit_at, get_or-IsWord}
use tdb_succinct_wasm.Bits.Digit.{bit}
use tdb_succinct_wasm.Bits.Count.{count_ones, ones_below}
use mathlib.Core.List.{append-nil}
use tdb_succinct_wasm.Tests.Crates.{crates}

abbrev values : List ℕ
values = 1 ∷ 5 ∷ 6 ∷ []

parse-finalize_example :
    (buf : List ℕ) × (la : LogArray) × ((Builder.push_vec crates (Builder.new [] 5) values
        >>= Builder.finalize crates)
      ≡ done buf)
    × (parse crates buf ≡ done (ok la))
    × (la.len ≡ length values)
    × (la.width ≡ 5)
    × ((i : ℕ) → i < length values → entry crates la i ≡ done (get_or values i 0))
parse-finalize_example =
    parse-finalize crates 5 values (omega arith) (omega arith)
      (omega arith, (omega arith, (omega arith, tt))) (omega arith)

parse_control_word-header_example : parse_control_word crates (header 1000 17) ≡ done (1000, 17)
parse_control_word-header_example =
    parse_control_word-header crates 1000 17 (omega arith) (omega arith)

parse_header_first-finalize_example :
    (buf : List ℕ) × (la : LogArray) × (Late.finalize_header_first crates
        (Late.push_vec (Late.new []) values)
      ≡ done buf)
    × (parse_header_first crates (buf ++ (7 ∷ 8 ∷ [])) ≡ done (ok (la, 7 ∷ 8 ∷ [])))
    × (la.len ≡ length values)
    × ((i : ℕ) → i < length values → entry crates la i ≡ done (get_or values i 0))
parse_header_first-finalize_example =
    parse_header_first-finalize crates values (7 ∷ 8 ∷ [])
      (omega arith, (omega arith, (omega arith, tt))) (omega arith) (omega arith)

push_cases_example :
    ((32 < 2 ^ 5)
      × ((b' : Builder) × (Builder.push crates (Builder.new [] 5) 32 ≡ done b')
          × (b'.width ≡ 5)
          × Encodes [] b' (32 ∷ [])))
    ⊎ ((2 ^ 5 ≤ 32) × (Builder.push crates (Builder.new [] 5) 32 ≡ panic))
unfolding Builder.new
push_cases_example =
    push_cases crates 32 (new-Encodes [] 5 (omega arith) (omega arith)) (omega arith)

-- An array of 64 bits an element holds its elements as its words.
whole_words :
    (vs : List ℕ) → All IsWord vs → Entry.Represents (array_of (be_words vs) (length vs) 64) vs vs
whole_words vs words = record {
  tail = [];
  buf = sym (append-nil (be_words vs));
  words = words;
  width_pos = omega arith;
  width_le = omega arith;
  len = refl;
  room = omega arith;
  small = λ i h. get_or-IsWord vs i words;
  bits = λ i j h p. stream_bit_at vs (64 * (0 + i) + j) i j (omega arith) p;
}

abbrev words_array : LogArray
words_array = array_of (be_words values) 3 64

words_array-Represents : Entry.Represents words_array values values
words_array-Represents = whole_words values (omega arith, (omega arith, (omega arith, tt)))

values-IsIncreasing : IsIncreasing values
values-IsIncreasing zero zero p h = omega arith
values-IsIncreasing zero (suc zero) p h = omega arith
values-IsIncreasing zero (suc (suc zero)) p h = omega arith
values-IsIncreasing (suc zero) (suc zero) p h = omega arith
values-IsIncreasing (suc zero) (suc (suc zero)) p h = omega arith
values-IsIncreasing (suc (suc zero)) (suc (suc zero)) p h = omega arith
values-IsIncreasing i j p h = absurd (omega arith)

entry-Represents_example : entry crates words_array 1 ≡ done 5
entry-Represents_example = entry-Represents crates words_array-Represents 1 (omega arith)

abbrev monotonic : MonotonicLogArray
monotonic = record { logarray = words_array }

nearest_index_of-IsNearest_example :
    (index : ℕ) × (nearest_index_of crates monotonic 4 ≡ done index) × IsNearest values 4 index
nearest_index_of-IsNearest_example =
    nearest_index_of-IsNearest crates {m = monotonic} words_array-Represents values-IsIncreasing 4

index_of_lem_example :
    ((index : ℕ) × (index_of crates monotonic 5 ≡ done (some index))
      × (index < length values)
      × (get_or values index 0 ≡ 5))
    ⊎ ((index_of crates monotonic 5 ≡ done none)
        × ((j : ℕ) → j < length values → get_or values j 0 ≢ 5))
index_of_lem_example =
    index_of_lem crates {m = monotonic} words_array-Represents values-IsIncreasing 5

abbrev flags : List Bool
flags = true ∷ false ∷ true ∷ []

from_bits-finalize_example :
    (a : BitArray) × (BitArray.from_bits crates
        (BitBuilder.finalize crates (BitBuilder.push_all crates (BitBuilder.new []) flags))
      ≡ done (ok a))
    × (a.len ≡ length flags)
    × ((i : ℕ) → i < length flags → BitArray.get a i ≡ done (get_or flags i false))
    × (BitArray.iter a ≡ done flags)
from_bits-finalize_example = from_bits-finalize crates flags (omega arith)

abbrev flags_array : BitArray
flags_array = record { len = 3; buf = be_words (0xa000_0000_0000_0000 ∷ []) }

flags_hold :
    (i : ℕ) → i < 3 → stream_bit (0xa000_0000_0000_0000 ∷ []) i ≡ digit (get_or flags i false)
unfolding bit
flags_hold zero h = refl
flags_hold (suc zero) h = refl
flags_hold (suc (suc zero)) h = refl
flags_hold (suc (suc (suc i))) h = absurd (omega arith)

flags_array-Represents : Get.Represents flags_array (0xa000_0000_0000_0000 ∷ []) flags
flags_array-Represents = record {
  tail = [];
  buf = sym (append-nil (be_words (0xa000_0000_0000_0000 ∷ [])));
  words = (omega arith, tt);
  len = refl;
  room = omega arith;
  holds = flags_hold;
}

-- The index of three bits: one block and one superblock.
abbrev flags_index : BitIndex
flags_index = record {
  array = flags_array;
  blocks = array_of (be_words (2 ∷ [])) 1 64;
  sblocks = array_of (be_words (2 ∷ [])) 1 64;
}

flags_index-IsIndexed : IsIndexed flags_index flags
unfolding word_ones count_ones
flags_index-IsIndexed = record {
  ws = 0xa000_0000_0000_0000 ∷ [];
  array = flags_array-Represents;
  bws = 2 ∷ [];
  bl = 2 ∷ [];
  blocks = whole_words (2 ∷ []) (omega arith, tt);
  sws = 2 ∷ [];
  sl = 2 ∷ [];
  sblocks = whole_words (2 ∷ []) (omega arith, tt);
  block_count = refl;
  sblock_count = refl;
  sblock_rank = λ s h. let e : s ≡ 0 = omega arith in rw e (unfold ones_below bit in refl);
  block_rank = λ b h. let e : b ≡ 0 = omega arith in rw e (unfold ones_below bit in refl);
}

rank1-ones_example : rank1 crates flags_index 2 ≡ done (ones flags 3)
rank1-ones_example = rank1-ones crates flags_index-IsIndexed 2 (omega arith)

ranks_from_range_example :
    (rank1_from_range crates flags_index 1 3 ≡ done (ones flags 3 - ones flags 1))
    × (rank0_from_range crates flags_index 1 3 ≡ done ((3 - 1) - (ones flags 3 - ones flags 1)))
ranks_from_range_example =
    ranks_from_range crates flags_index-IsIndexed 1 3 (omega arith) (omega arith)

select_from_range_opt_linear-Selects_example :
    (r : Option ℕ) × (select_from_range_opt_linear flags_index 1 1 (some 3) true ≡ done r)
    × Selects true flags 1 3 1 r
select_from_range_opt_linear-Selects_example =
    select_from_range_opt_linear-Selects flags_index flags_array-Represents true 1 1 3 (omega arith)
      (omega arith) (omega arith)

abbrev pairs_list : AdjacencyList
pairs_list = record { nums = words_array; bits = flags_index }

pairs_list-Holds : Holds pairs_list flags values
pairs_list-Holds = record {
  bits = flags_index-IsIndexed;
  ws = values;
  nums = words_array-Represents;
  same = refl;
}

collect-pair_at_pos_example :
    (AdjacencyList.collect crates (length flags + 1) (AdjacencyList.iter pairs_list)
      ≡ done (pairs_from (length flags) 0 flags values))
    × ((i : ℕ)
        → i < length flags
        → pair_at_pos crates pairs_list i ≡ done (ones flags i + 1, get_or values i 0))
    × ((i : ℕ) → i < length flags → left_at_pos crates pairs_list i ≡ done (ones flags i + 1))
    × (left_count crates pairs_list ≡ done (ones flags (length flags)))
collect-pair_at_pos_example = collect-pair_at_pos crates pairs_list-Holds
