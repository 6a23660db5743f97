-- ===== src/BitIndex/Build/Indexed.antt =====
-- The pushed ranks are those that the rank queries expect.
pub mod Opened
use native.Mathlib.Decide.{dec_lt}
use mathlib.Core.List.{append-nil}
use tdb_succinct_wasm.Base.{
  ℕ, zero, suc, ◌+◌, ◌-◌, ◌*◌, ◌/◌, ◌%◌, ◌≤◌, ◌<◌, min, ◌≡◌, refl, sym, ap, ◌∙◌, List, [], ◌∷◌,
  ◌++◌, map, length, length-append, get_or, All, arith,
}
use tdb_succinct_wasm.Bits.Count.{count_ones}
use tdb_succinct_wasm.Words.Stream.{get_or-append_left}
use tdb_succinct_wasm.BitIndex.Rank.{word_ones}
use tdb_succinct_wasm.BitIndex.Build.{sum}
use tdb_succinct_wasm.BitIndex.Build.Blocks.{block_values, all_block_values, sblock_values}

-- What `chunks` of the crate `itertools` says of its groups: in order they are the sequence, each
-- has `n` elements, and the last one may have fewer, but not none.
unfoldable pub IsChunked : ℕ → List ℕ → List (List ℕ) → Type 0
IsChunked n xs [] = xs ≡ []
IsChunked n xs (c ∷ css) =
    (rest : List ℕ) × (xs ≡ c ++ rest)
    × (0 < length c)
    × (length c ≤ n)
    × (0 < length rest → length c ≡ n)
    × IsChunked n rest css

pub IsChunked-short :
    (n : ℕ) (xs : List ℕ) (css : List (List ℕ)) → IsChunked n xs css → All (λ c. length c ≤ n) css
unfolding IsChunked
IsChunked-short n xs [] h = tt
IsChunked-short n xs (c ∷ css) (rest, e, some_words, most, full, h) =
    (most, IsChunked-short n rest css h)

get_or-append_right : (xs ys : List ℕ) (i : ℕ) → get_or (xs ++ ys) (length xs + i) 0 ≡ get_or ys i 0
get_or-append_right [] ys i = let e : 0 + i ≡ i = omega arith in rw e
get_or-append_right (x ∷ xs) ys i =
    let e : suc (length xs) + i ≡ suc (length xs + i) = omega arith in
    rw e (get_or-append_right xs ys i)

-- `xs` stands in `ws` from `off` on.
abbrev pub IsAt : List ℕ → ℕ → List ℕ → Type 0
IsAt ws off xs = (j : ℕ) → j < length xs → get_or ws (off + j) 0 ≡ get_or xs j 0

IsAt-tail : (ws : List ℕ) (off x : ℕ) (xs : List ℕ) → IsAt ws off (x ∷ xs) → IsAt ws (off + 1) xs
IsAt-tail ws off x xs h j p =
    let e : off + 1 + j ≡ off + suc j = omega arith in rw e (h (suc j) (omega arith))

one_more :
    (ws : List ℕ) (k : ℕ) → word_ones ws (k + 1) ≡ word_ones ws k + count_ones (get_or ws k 0)
unfolding word_ones
one_more ws k = let e : k + 1 ≡ suc k = omega arith in rw e

first_word :
    (ws : List ℕ) (off x : ℕ) (xs : List ℕ)
    → IsAt ws off (x ∷ xs)
    → word_ones ws (off + 1) ≡ word_ones ws off + count_ones x
first_word ws off x xs h =
    let e : off + 0 ≡ off = omega arith in
    one_more ws off ∙ ap (λ w. word_ones ws off + count_ones w) (rw e at (h 0 (omega arith)))

-- A segment adds its ones.
word_ones-sum :
    (ws : List ℕ) (off : ℕ) (c : List ℕ)
    → IsAt ws off c
    → word_ones ws (off + length c) ≡ word_ones ws off + sum (map count_ones c)
unfolding sum
word_ones-sum ws off [] h = let e : off + 0 ≡ off = omega arith in rw e (omega arith)
word_ones-sum ws off (x ∷ c) h =
    let e : off + suc (length c) ≡ off + 1 + length c = omega arith in
    rw e (
      omega (arith, word_ones-sum ws (off + 1) c (IsAt-tail ws off x c h), first_word ws off x c h))

length-block_values :
    (subrank : ℕ) (c : List ℕ) → length (block_values subrank (map count_ones c)) ≡ length c
unfolding block_values
length-block_values subrank [] = refl
length-block_values subrank (x ∷ c) = ap suc (length-block_values (subrank - count_ones x) c)

block_values-rank :
    (ws : List ℕ) (off subrank : ℕ) (c : List ℕ) (j : ℕ)
    → IsAt ws off c
    → subrank ≡ sum (map count_ones c)
    → j < length c
    → get_or (block_values subrank (map count_ones c)) j 0 + word_ones ws (off + j)
      ≡ word_ones ws off + subrank
unfolding sum block_values
block_values-rank ws off subrank [] j h e p = absurd (omega arith)
block_values-rank ws off subrank (x ∷ c) zero h e p =
    let here : off + 0 ≡ off = omega arith in rw here (omega arith)
block_values-rank ws off subrank (x ∷ c) (suc j) h e p =
    let place : off + suc j ≡ off + 1 + j = omega arith in
    rw place (
      omega (
        arith,
        e,
        block_values-rank ws (off + 1) (subrank - count_ones x) c j (IsAt-tail ws off x c h)
            (omega (arith, e)) (omega arith),
        first_word ws off x c h,
      ))

-- The ranks of the words from superblock `k` on, `n` of them.
pub record IsRanked (ws : List ℕ) (k n : ℕ) (sl bl : List ℕ) : Type 0 where
  pub sblock_count : length sl ≡ (n + 51) / 52
  pub block_count : length bl ≡ n
  pub sblock_rank :
      (s : ℕ) → s < length sl → get_or sl s 0 ≡ word_ones ws (min (52 * (k + s + 1)) (52 * k + n))
  pub block_rank :
      (b : ℕ) → b < n → get_or bl b 0 + word_ones ws (52 * k + b) ≡ get_or sl (b / 52) 0

-- The last superblock.
last-IsRanked :
    (ws : List ℕ) (k rank : ℕ) (c : List ℕ)
    → IsAt ws (52 * k) c
    → rank ≡ word_ones ws (52 * k)
    → 0 < length c
    → length c ≤ 52
    → IsRanked ws k
        (length c)
        ((rank + sum (map count_ones c)) ∷ [])
        (block_values (sum (map count_ones c)) (map count_ones c) ++ [])
last-IsRanked ws k rank c h e p m = record {
  sblock_count = omega arith;
  block_count =
      rw (append-nil (block_values (sum (map count_ones c)) (map count_ones c)))
        (length-block_values (sum (map count_ones c)) c);
  sblock_rank = λ s q.
      let first : s ≡ 0 = omega arith in
      let place : min (52 * (k + 0 + 1)) (52 * k + length c) ≡ 52 * k + length c = omega arith in
      rw (first, place) (omega (arith, e, word_ones-sum ws (52 * k) c h));
  block_rank = λ b q.
      let first : b / 52 ≡ 0 = omega arith in
      let value = block_values-rank ws (52 * k) (sum (map count_ones c)) c b h refl q in
      rw (append-nil (block_values (sum (map count_ones c)) (map count_ones c)), first)
        (omega (arith, e, value));
}

-- A full superblock before others.
more-IsRanked :
    (ws : List ℕ) (k rank : ℕ) (c rest sl bl : List ℕ)
    → IsAt ws (52 * k) c
    → rank ≡ word_ones ws (52 * k)
    → length c ≡ 52
    → 0 < length rest
    → IsRanked ws (k + 1) (length rest) sl bl
    → IsRanked ws k
        (length (c ++ rest))
        ((rank + sum (map count_ones c)) ∷ sl)
        (block_values (sum (map count_ones c)) (map count_ones c) ++ bl)
more-IsRanked ws k rank c rest sl bl h e full some_words tail =
    let whole = length-append c rest in
    let values = block_values (sum (map count_ones c)) (map count_ones c) in
    let size : length values ≡ 52 = length-block_values (sum (map count_ones c)) c ∙ full in
    record {
      sblock_count = omega (arith, whole, tail.sblock_count);
      block_count = omega (arith, whole, size, tail.block_count, length-append values bl);
      sblock_rank = λ s.
          elim s
            as (λ s.
              s < suc (length sl)
              → get_or ((rank + sum (map count_ones c)) ∷ sl) s 0
                ≡ word_ones ws (min (52 * (k + s + 1)) (52 * k + length (c ++ rest)))) [
                  | zero ↦ λ q.
                      let place : min (52 * (k + 0 + 1)) (52 * k + length (c ++ rest))
                          ≡ 52 * k + length c =
                        omega (arith, whole) in
                      rw place (omega (arith, e, word_ones-sum ws (52 * k) c h))
                  | suc s ↦ λ q.
                      let place : min (52 * (k + suc s + 1)) (52 * k + length (c ++ rest))
                          ≡ min (52 * (k + 1 + s + 1)) (52 * (k + 1) + length rest) =
                        omega (arith, whole, full) in
                      rw place (tail.sblock_rank s (omega arith))
                ];
      block_rank = λ b q. elim (dec_lt b 52) [
        | yes p ↦
            let first : b / 52 ≡ 0 = omega arith in
            let value =
              block_values-rank ws (52 * k) (sum (map count_ones c)) c b h refl (omega arith) in
            rw (get_or-append_left values bl b (omega (arith, size)), first)
              (omega (arith, e, value))
        | no p ↦
            let place : b ≡ length values + (b - 52) = omega (arith, size) in
            let here : get_or (values ++ bl) b 0 ≡ get_or bl (b - 52) 0 =
              ap (λ i. get_or (values ++ bl) i 0) place ∙ get_or-append_right values bl (b - 52) in
            let later : b / 52 ≡ suc ((b - 52) / 52) = omega arith in
            let words : 52 * k + b ≡ 52 * (k + 1) + (b - 52) = omega arith in
            rw (here, later, words) (tail.block_rank (b - 52) (omega (arith, whole, full)))
      ];
    }

pub values-IsRanked :
    (ws : List ℕ) (css : List (List ℕ)) (k rank : ℕ) (xs : List ℕ)
    → IsChunked 52 xs css
    → IsAt ws (52 * k) xs
    → rank ≡ word_ones ws (52 * k)
    → IsRanked ws k (length xs) (sblock_values rank css) (all_block_values css)
unfolding IsChunked sblock_values all_block_values
values-IsRanked ws [] k rank xs none_left h e = rw none_left (record {
  sblock_count = omega arith;
  block_count = refl;
  sblock_rank = λ s q. absurd (omega arith);
  block_rank = λ b q. absurd (omega arith);
})
values-IsRanked ws (c ∷ []) k rank xs (rest, cut, some_words, most, full, none_left) h e =
    let all : xs ≡ c = cut ∙ rw none_left (append-nil c) in
    rw all (last-IsRanked ws k rank c (rw all at h) e some_words most)
values-IsRanked ws (c ∷ d ∷ css) k rank xs (rest, cut, some_words, most, full, inner) h e =
    let (rest', cut', some_words', _, _, _) = inner in
    let left : 0 < length rest =
      omega (arith, ap length cut', length-append d rest', some_words') in
    let exact = full left in
    let whole : IsAt ws (52 * k) (c ++ rest) = rw cut at h in
    let size = length-append c rest in
    let front : IsAt ws (52 * k) c =
      λ j p. whole j (omega (arith, size)) ∙ get_or-append_left c rest j p in
    let back : IsAt ws (52 * (k + 1)) rest = λ j p.
      let place : 52 * (k + 1) + j ≡ 52 * k + (length c + j) = omega (arith, exact) in
      rw place (whole (length c + j) (omega (arith, size)) ∙ get_or-append_right c rest j) in
    let next : rank + sum (map count_ones c) ≡ word_ones ws (52 * (k + 1)) =
      let place : 52 * (k + 1) ≡ 52 * k + length c = omega (arith, exact) in
      rw place (omega (arith, e, word_ones-sum ws (52 * k) c front)) in
    let tail =
      values-IsRanked ws (d ∷ css) (k + 1) (rank + sum (map count_ones c)) rest inner back next in
    rw cut (more-IsRanked ws k rank c rest _ _ front e exact left tail)
