-- ===== src/Words/Stream.antt =====
-- A list of words as one stream of bits, the highest bit of each word first, and as bytes.
use tdb_succinct_wasm.Base.{
  ℕ, zero, suc, ◌+◌, ◌-◌, ◌*◌, ◌/◌, ◌%◌, ◌^◌, ◌≤◌, ◌<◌, ◌≡◌, refl, ap, ◌∙◌, List, [], ◌∷◌, ◌++◌,
  length, get_or, take, drop, All, length-append, false, ltb, done, arith,
}
use tdb_succinct_wasm.Bits.Digit.{bit}
use tdb_succinct_wasm.Words.{to_be_bytes, Buffers, slice}
use mathlib.Core.List.{append_assoc}

abbrev pub IsWord : ℕ → Type 0
IsWord n = n < 2 ^ 64

-- Bit `p` of the stream; past the end it is 0.
abbrev pub stream_bit : List ℕ → ℕ → ℕ
stream_bit ws p = bit (get_or ws (p / 64) 0) (63 - p % 64)

-- The bit at a place given by its word and its distance from the word's front.
pub stream_bit_at :
    (ws : List ℕ) (p q r : ℕ)
    → p ≡ 64 * q + r
    → r < 64
    → stream_bit ws p ≡ bit (get_or ws q 0) (63 - r)
stream_bit_at ws p q r e h =
    let word : p / 64 ≡ q = omega arith in let place : p % 64 ≡ r = omega arith in rw (word, place)

pub get_or-append_left :
    (xs ys : List ℕ) (i : ℕ) → i < length xs → get_or (xs ++ ys) i 0 ≡ get_or xs i 0
get_or-append_left [] ys i h = absurd (omega arith)
get_or-append_left (x ∷ xs) ys zero h = refl
get_or-append_left (x ∷ xs) ys (suc i) h = get_or-append_left xs ys i (omega arith)

pub get_or-append_last :
    (xs : List ℕ) (y : ℕ) (i : ℕ) → i ≡ length xs → get_or (xs ++ (y ∷ [])) i 0 ≡ y
get_or-append_last [] y zero h = refl
get_or-append_last [] y (suc i) h = absurd (omega arith)
get_or-append_last (x ∷ xs) y zero h = absurd (omega arith)
get_or-append_last (x ∷ xs) y (suc i) h = get_or-append_last xs y i (omega arith)

pub get_or_past : (xs : List ℕ) (i : ℕ) → length xs ≤ i → get_or xs i 0 ≡ 0
get_or_past [] i h = refl
get_or_past (x ∷ xs) zero h = absurd (omega arith)
get_or_past (x ∷ xs) (suc i) h = get_or_past xs i (omega arith)

pub get_or-IsWord : (ws : List ℕ) (i : ℕ) → All IsWord ws → IsWord (get_or ws i 0)
get_or-IsWord [] i h = omega arith
get_or-IsWord (w ∷ ws) zero (h, t) = h
get_or-IsWord (w ∷ ws) (suc i) (h, t) = get_or-IsWord ws i t

pub stream_bit-append_left :
    (ws : List ℕ) (w p : ℕ) → p < 64 * length ws → stream_bit (ws ++ (w ∷ [])) p ≡ stream_bit ws p
stream_bit-append_left ws w p h =
    ap (λ t. bit t (63 - p % 64)) (get_or-append_left ws (w ∷ []) (p / 64) (omega arith))

pub stream_bit-append_last :
    (ws : List ℕ) (w p : ℕ)
    → 64 * length ws ≤ p
    → p < 64 * length ws + 64
    → stream_bit (ws ++ (w ∷ [])) p ≡ bit w (63 - (p - 64 * length ws))
stream_bit-append_last ws w p h k =
    let place : 63 - p % 64 ≡ 63 - (p - 64 * length ws) = omega arith in
    ap (λ t. bit t (63 - p % 64)) (get_or-append_last ws w (p / 64) (omega arith))
    ∙ ap (bit w) place

-- The bytes of a list of words.
unfoldable pub be_words : List ℕ → List ℕ
unfolding to_be_bytes
be_words [] = []
be_words (w ∷ ws) = to_be_bytes 8 w ++ be_words ws

pub length-be_words : (ws : List ℕ) → length (be_words ws) ≡ 8 * length ws
unfolding be_words
length-be_words [] = refl
length-be_words (w ∷ ws) = omega (arith, length-be_words ws)

pub be_words-append : (ws vs : List ℕ) → be_words (ws ++ vs) ≡ be_words ws ++ be_words vs
unfolding be_words
be_words-append [] vs = refl
be_words-append (w ∷ ws) vs =
    rw (be_words-append ws vs, append_assoc (to_be_bytes 8 w) (be_words ws) (be_words vs))

pub be_words-snoc :
    (ws : List ℕ) (w : ℕ) → be_words (ws ++ (w ∷ [])) ≡ be_words ws ++ to_be_bytes 8 w
unfolding be_words
be_words-snoc ws w = be_words-append ws (w ∷ [])

-- What stands at the place of word `q`.
drop-be_words :
    (ws tail : List ℕ) (q : ℕ)
    → q < length ws
    → (rest : List ℕ) × (drop (8 * q) (be_words ws ++ tail) ≡ to_be_bytes 8 (get_or ws q 0) ++ rest)
unfolding be_words
drop-be_words [] tail q h = absurd (omega arith)
drop-be_words (w ∷ ws) tail zero h = (be_words ws ++ tail, refl)
drop-be_words (w ∷ ws) tail (suc q) h =
    let e : 8 * suc q ≡ suc (suc (suc (suc (suc (suc (suc (suc (8 * q)))))))) = omega arith in
    let (rest, r) = drop-be_words ws tail q (omega arith) in (rest, rw e r)

module _ (io : Buffers) where
  -- The place of word `q` lies within the buffer, and the big-endian read there finds that word.
  pub read_u64-be_words :
      (buf ws tail : List ℕ) (q : ℕ)
      → buf ≡ be_words ws ++ tail
      → All IsWord ws
      → q < length ws
      → (ltb (length buf) (8 * q) ≡ false) × (io.read_u64 (drop (8 * q) buf) ≡ done (get_or ws q 0))
  read_u64-be_words buf ws tail q same words h =
      let (rest, e) = drop-be_words ws tail q h in
      let size = length-be_words ws in
      (
        ground (arith, ap length same, length-append (be_words ws) tail),
        ap (λ b. io.read_u64 (drop (8 * q) b)) same
            ∙ rw e (io.read_u64_lem (get_or ws q 0) rest (get_or-IsWord ws q words)),
      )

-- The bytes of one word.
drop-take-be_words :
    (ws tail : List ℕ) (q : ℕ)
    → q < length ws
    → drop (8 * q) (take (8 * q + 8) (be_words ws ++ tail)) ≡ to_be_bytes 8 (get_or ws q 0)
unfolding be_words
drop-take-be_words [] tail q h = absurd (omega arith)
drop-take-be_words (w ∷ ws) tail zero h = unfold to_be_bytes in refl
drop-take-be_words (w ∷ ws) tail (suc q) h =
    let e : 8 * suc q ≡ suc (suc (suc (suc (suc (suc (suc (suc (8 * q)))))))) = omega arith in
    let e' : 8 * suc q + 8 ≡ suc (suc (suc (suc (suc (suc (suc (suc (8 * q + 8)))))))) =
      omega arith in
    rw (e', e) (drop-take-be_words ws tail q (omega arith))

pub slice-be_words :
    (buf ws tail : List ℕ) (q : ℕ)
    → buf ≡ be_words ws ++ tail
    → q < length ws
    → slice buf (q * 8) (q * 8 + 8) ≡ done (to_be_bytes 8 (get_or ws q 0))
slice-be_words buf ws tail q same h =
    let size = length-be_words ws in
    let whole : length buf ≡ 8 * length ws + length tail =
      ap length same ∙ length-append (be_words ws) tail ∙ omega arith in
    let ordered : ltb (q * 8 + 8) (q * 8) ≡ false = ground arith in
    let within : ltb (length buf) (q * 8 + 8) ≡ false = ground arith in
    let place : q * 8 ≡ 8 * q = omega arith in
    let cut : drop (q * 8) (take (q * 8 + 8) buf) ≡ to_be_bytes 8 (get_or ws q 0) =
      rw (same, place) (drop-take-be_words ws tail q h) in
    rw (ordered, within, cut) refl
