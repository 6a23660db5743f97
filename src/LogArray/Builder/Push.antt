-- ===== src/LogArray/Builder/Push.antt =====
-- `push` keeps what was written and adds one element: the stream of bits holds the values so far.
use native.Mathlib.Decide.{dec_lt}
use native.Mathlib.Nat.{div-le_self}
use tdb_succinct_wasm.Base.{
  ℕ, ◌+◌, ◌-◌, ◌*◌, ◌^◌, ◌≤◌, ◌<◌, bit_or, ◌≡◌, refl, sym, ap, ◌∙◌, List, [], ◌∷◌, ◌++◌, length,
  length-append, get_or, All, arith,
}
use tdb_succinct_wasm.Bits.Digit.{bit, bit-bit_or, bit_cong}
use tdb_succinct_wasm.Bits.Shift.{
  ◌<<<◌, ◌>>>◌, u64, bit-shr, bit_of_lt, bit-u64_shl, bit-u64_shl_low,
}
use tdb_succinct_wasm.Words.Stream.{
  IsWord, stream_bit, be_words, get_or-append_left, get_or-append_last, stream_bit-append_left,
  stream_bit-append_last,
}
use tdb_succinct_wasm.LogArray.Builder.{Builder}

-- A stream holds the values `vs`, `w` bits each, from its start.
abbrev pub Holds : (ℕ → ℕ) → ℕ → List ℕ → Type 0
Holds s w vs = (i j : ℕ) → i < length vs → j < w → s (w * i + j) ≡ bit (get_or vs i 0) (w - 1 - j)

pub Holds-snoc :
    (s s' : ℕ → ℕ) (w : ℕ) (vs : List ℕ) (val p : ℕ)
    → p ≡ w * length vs
    → ((k : ℕ) → k < p → s' k ≡ s k)
    → ((j : ℕ) → j < w → s' (p + j) ≡ bit val (w - 1 - j))
    → Holds s w vs
    → Holds s' w (vs ++ (val ∷ []))
Holds-snoc s s' w vs val p e old new holds i j hi hj =
    let size = length-append vs (val ∷ []) in
    elim (dec_lt i (length vs)) [
      | yes q ↦
          old (w * i + j) (grind arith)
          ∙ holds i j q hj
          ∙ bit_cong (sym (get_or-append_left vs (val ∷ []) i q)) refl
      | no q ↦
          let last : i ≡ length vs = omega arith in
          let place : w * i + j ≡ p + j = grind arith in
          ap s' place ∙ new j hj ∙ bit_cong (sym (get_or-append_last vs val i last)) refl
    ]

-- The word that `push` ors into the current one.
abbrev pub part : ℕ → ℕ → ℕ → ℕ
part w off val = u64 (val <<< (64 - w)) >>> off

part_inside :
    (w off val j : ℕ)
    → w ≤ 64
    → j < w
    → off + j < 64
    → bit (part w off val) (63 - (off + j)) ≡ bit val (w - 1 - j)
part_inside w off val j wide p q =
    bit-shr off (u64 (val <<< (64 - w))) (63 - (off + j))
    ∙ bit-u64_shl val (64 - w) (63 - (off + j) + off) (omega arith) (omega arith)
    ∙ bit_cong {a = val} refl (omega arith)

part_before : (w off val k : ℕ) → 64 ≤ k + off → bit (part w off val) k ≡ 0
part_before w off val k h =
    bit-shr off (u64 (val <<< (64 - w))) k
    ∙ bit_of_lt 64 (u64 (val <<< (64 - w))) (k + off) (omega arith) h

pub part_behind : (w off val k : ℕ) → k + off < 64 - w → bit (part w off val) k ≡ 0
part_behind w off val k h =
    bit-shr off (u64 (val <<< (64 - w))) k ∙ bit-u64_shl_low val (64 - w) (k + off) h

pub part-IsWord : (w off val : ℕ) → IsWord (part w off val)
part-IsWord w off val = omega (arith, div-le_self (u64 (val <<< (64 - w))) (2 ^ off))

-- Where the bits behind `off` were clear, the or keeps the bits before and sets those of the value.
pub or_before :
    (ws : List ℕ) (cur w off val k : ℕ)
    → k < 64 * length ws + off
    → off < 64
    → stream_bit (ws ++ (bit_or cur (part w off val) ∷ [])) k ≡ stream_bit (ws ++ (cur ∷ [])) k
or_before ws cur w off val k h lo = elim (dec_lt k (64 * length ws)) [
  | yes p ↦
      stream_bit-append_left ws (bit_or cur (part w off val)) k p
      ∙ sym (stream_bit-append_left ws cur k p)
  | no p ↦
      let place = 63 - (k - 64 * length ws) in
      stream_bit-append_last ws (bit_or cur (part w off val)) k (omega arith) (omega arith)
      ∙ omega (
        arith,
        bit-bit_or cur (part w off val) place,
        part_before w off val place (omega arith),
        stream_bit-append_last ws cur k (omega arith) (omega arith),
      )
]

pub or_inside :
    (ws : List ℕ) (cur w off val j : ℕ)
    → w ≤ 64
    → ((k : ℕ) → k < 64 - off → bit cur k ≡ 0)
    → j < w
    → off + j < 64
    → bit (bit_or cur (part w off val)) (63 - (off + j)) ≡ bit val (w - 1 - j)
or_inside ws cur w off val j wide clear p q = omega (
  arith,
  bit-bit_or cur (part w off val) (63 - (off + j)),
  clear (63 - (off + j)) (omega arith),
  part_inside w off val j wide p q,
)

-- The state of a builder that started behind `front` and took the values `vs`.
pub record Encodes (front : List ℕ) (b : Builder) (vs : List ℕ) : Type 0 where
  pub words : List ℕ
  pub buf : b.buf ≡ front ++ be_words words
  pub all_words : All IsWord words
  pub current_word : IsWord b.current
  pub width_pos : 0 < b.width
  pub width_le : b.width ≤ 64
  pub offset_lt : b.offset < 64
  pub place : 64 * length words + b.offset ≡ b.width * length vs
  pub count : b.count ≡ length vs
  pub small : All (λ v. v < 2 ^ b.width) vs
  pub clear : (k : ℕ) → k < 64 - b.offset → bit b.current k ≡ 0
  pub holds : Holds (stream_bit (words ++ (b.current ∷ []))) b.width vs
