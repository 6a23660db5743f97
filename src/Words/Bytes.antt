-- ===== src/Words/Bytes.antt =====
-- Single bits of the bytes of a list of words.
use native.Mathlib.Decide.{dec_lt, ℕ_discrete}
use native.Mathlib.Nat.{pow-suc}
use native.Mathlib.Numerals.{towards_suc}
use tdb_succinct_wasm.Base.{
  ℕ, zero, suc, ◌+◌, ◌-◌, ◌*◌, ◌/◌, ◌%◌, ◌^◌, ◌<◌, bit_and, ◌≡◌, ◌≢◌, refl, ap, ◌∙◌, inl, inr, some,
  List, [], ◌∷◌, ◌++◌, length, get_or, get_elem?, ◌==◌, Bool-cases, arith,
}
use tdb_succinct_wasm.Bits.Digit.{bit, bit-bit_and, bit_cong, bit-lt, bit_of_zero}
use tdb_succinct_wasm.Bits.Shift.{
  ◌<<<◌, ◌>>>◌, bit-shr, bit-shl_low, bit-shl_high, bit-mod_low, bit_of_lt,
}
use tdb_succinct_wasm.Bits.Ext.{bit_ext_all}
use tdb_succinct_wasm.Words.{to_be_bytes}
use tdb_succinct_wasm.Words.Stream.{be_words}

-- Byte `r` of a word, the highest first.
pub byte_of : ℕ → ℕ → ℕ
byte_of w r = w / 256 ^ (7 - r) % 256

get_elem?-word :
    (w r : ℕ) (rest : List ℕ) → r < 8 → get_elem? (to_be_bytes 8 w ++ rest) r ≡ some (byte_of w r)
unfolding to_be_bytes byte_of
get_elem?-word w zero rest h = refl
get_elem?-word w (suc zero) rest h = refl
get_elem?-word w (suc (suc zero)) rest h = refl
get_elem?-word w (suc (suc (suc zero))) rest h = refl
get_elem?-word w (suc (suc (suc (suc zero)))) rest h = refl
get_elem?-word w (suc (suc (suc (suc (suc zero))))) rest h = refl
get_elem?-word w (suc (suc (suc (suc (suc (suc zero)))))) rest h = refl
get_elem?-word w (suc (suc (suc (suc (suc (suc (suc zero))))))) rest h = refl
get_elem?-word w (suc (suc (suc (suc (suc (suc (suc (suc r)))))))) rest h = absurd (omega arith)

pub get_elem?-be_words :
    (ws tail : List ℕ) (q r : ℕ)
    → q < length ws
    → r < 8
    → get_elem? (be_words ws ++ tail) (8 * q + r) ≡ some (byte_of (get_or ws q 0) r)
unfolding be_words
get_elem?-be_words [] tail q r h k = absurd (omega arith)
get_elem?-be_words (w ∷ ws) tail zero r h k =
    let e : 8 * 0 + r ≡ r = omega arith in rw e (get_elem?-word w r _ k)
get_elem?-be_words (w ∷ ws) tail (suc q) r h k =
    let e : 8 * suc q + r ≡ suc (suc (suc (suc (suc (suc (suc (suc (8 * q + r)))))))) =
      omega arith in
    rw e (get_elem?-be_words ws tail q r (omega arith) k)

pow-256 : (k : ℕ) → 256 ^ k ≡ 2 ^ (8 * k)
pow-256 zero = refl
pow-256 (suc k) =
    let e : 8 * suc k ≡ 8 * k + 8 = omega arith in
    rw e (simp towards_suc (omega (arith, pow-suc 256 k, pow-256 k)))

bit-byte_of : (w r s : ℕ) → r < 8 → s < 8 → bit (byte_of w r) (7 - s) ≡ bit w (63 - (8 * r + s))
unfolding byte_of
bit-byte_of w r s h k =
    bit-mod_low 8 (w / 256 ^ (7 - r)) (7 - s) (omega arith)
    ∙ bit_cong {j = 7 - s} (ap (λ (t : ℕ). w / t) (pow-256 (7 - r))) refl
    ∙ bit-shr (8 * (7 - r)) w (7 - s)
    ∙ bit_cong {a = w} refl (omega arith)

-- A number with one digit, at place `p`.
pub bit_of_pow_self : (p : ℕ) → bit (1 <<< p) p ≡ 1
unfolding bit
bit_of_pow_self p = let e : 0 + p ≡ p = omega arith in rw e at (bit-shl_high p 1 0)

pub bit_of_pow_ne : (p i : ℕ) → i ≢ p → bit (1 <<< p) i ≡ 0
bit_of_pow_ne p i h = elim (dec_lt i p) [
  | yes q ↦ bit-shl_low p 1 i q
  | no q ↦
      let e : i - p + p ≡ i = omega arith in
      rw e at (bit-shl_high p 1 (i - p)) ∙ bit_of_lt 1 1 (i - p) (omega arith) (omega arith)
]

-- The test of one digit by a mask.
pub single_digit : (a p : ℕ) → (bit_and a (1 <<< p) == 0) ≡ (bit a p == 0)
single_digit a p = elim (Bool-cases (bit a p == 0)) [
  | inl clear ↦
      let empty : bit_and a (1 <<< p) ≡ 0 = bit_ext_all _ 0 (λ i. elim (ℕ_discrete i p) [
        | yes e ↦
            let here = bit-bit_and a (1 <<< p) p in
            let nothing : bit a p ≡ 0 = ground arith in
            bit_cong {a = bit_and a (1 <<< p)} refl e ∙ omega (arith, here, nothing, bit_of_zero i)
        | no e ↦ omega (arith, bit-bit_and a (1 <<< p) i, bit_of_pow_ne p i e, bit_of_zero i)
      ]) in
      rw clear (ground arith)
  | inr digit ↦
      let here = bit-bit_and a (1 <<< p) p in
      let one : bit a p ≢ 0 = λ e. ground arith in
      let kept : bit_and a (1 <<< p) ≢ 0 = λ e.
        one (
          omega (arith, here, bit_of_pow_self p, ap (λ t. bit t p) e, bit_of_zero p, bit-lt a p)) in
      rw digit (ground arith)
]

-- Bit `8 * r + s` of a word, by the mask for bit `s` of its byte `r`.
pub byte_mask :
    (w r s : ℕ)
    → r < 8
    → s < 8
    → (bit_and (byte_of w r) (0x80 >>> s) == 0) ≡ (bit w (63 - (8 * r + s)) == 0)
byte_mask w r s h k =
    ap (λ t. bit_and (byte_of w r) t == 0) (mask s k)
    ∙ single_digit (byte_of w r) (7 - s)
    ∙ ap (λ t. t == 0) (bit-byte_of w r s h k)
  where
    mask : (s : ℕ) → s < 8 → 0x80 >>> s ≡ 1 <<< (7 - s)
    mask zero k = refl
    mask (suc zero) k = refl
    mask (suc (suc zero)) k = refl
    mask (suc (suc (suc zero))) k = refl
    mask (suc (suc (suc (suc zero)))) k = refl
    mask (suc (suc (suc (suc (suc zero))))) k = refl
    mask (suc (suc (suc (suc (suc (suc zero)))))) k = refl
    mask (suc (suc (suc (suc (suc (suc (suc zero))))))) k = refl
    mask (suc (suc (suc (suc (suc (suc (suc (suc s)))))))) k = absurd (omega arith)
