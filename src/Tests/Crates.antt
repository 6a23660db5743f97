-- ===== src/Tests/Crates.antt =====
-- Buffers for the runs: what the crates do, on lists of bytes.
use native.Mathlib.Nat.{
  pow-suc, one-le-pow, mod-eq_of_lt, div-add-mod, mul-add-mod_self_left, mul-le-mul_left, mod-lt,
}
use tdb_succinct_wasm.Base.{
  ℕ, zero, suc, ◌+◌, ◌*◌, ◌/◌, ◌%◌, ◌^◌, ◌≤◌, ◌<◌, ◌≡◌, refl, sym, ap, ◌∙◌, Bool, true, false, List,
  [], ◌∷◌, ◌++◌, length, take, drop, ltb, if◌then◌else◌, Run, done, panic, arith,
}
use tdb_succinct_wasm.VByte.{Buf}
use tdb_succinct_wasm.Words.{to_be_bytes, Buffers}

-- The first `k` bytes as a number, behind the bytes that stood for `acc`.
unfoldable pub read_number : ℕ → List ℕ → ℕ → Run ℕ
read_number zero bs acc = done acc
read_number (suc k) [] acc = panic
read_number (suc k) (x ∷ bs) acc = read_number k bs (acc * 256 + x)

regroup : (p q r s : ℕ) → p * (256 * q + r) + s ≡ p * 256 * q + (r * p + s)
regroup p q r s = grind arith

split_number : (p n : ℕ) → 1 ≤ p → n / p % 256 * p + n % p ≡ n % (p * 256)
split_number p n h =
    let q = n / p / 256 in
    let r = n / p % 256 in
    let s = n % p in
    let room : r + 1 ≤ 256 = omega arith in
    let whole : p * 256 * q + (r * p + s) ≡ n =
      sym (regroup p q r s) ∙ ap (λ m. p * m + s) (div-add-mod (n / p) 256) ∙ div-add-mod n p in
    let below : r * p + s < p * 256 = grind (arith, mul-le-mul_left p room, mod-lt n h) in
    sym (
      ap (λ m. m % (p * 256)) (sym whole)
      ∙ mul-add-mod_self_left (p * 256) q (r * p + s)
      ∙ mod-eq_of_lt below)

-- The highest byte and the others.
high_byte : (k n : ℕ) → n / 256 ^ k % 256 * 256 ^ k + n % 256 ^ k ≡ n % 256 ^ suc k
high_byte k n =
    let positive : 1 ≤ 256 ^ k = one-le-pow k 256 (omega arith) in
    split_number (256 ^ k) n positive ∙ sym (ap (λ m. n % m) (pow-suc 256 k))

carried : (acc p b r : ℕ) → (acc * 256 + b) * p + r ≡ acc * (p * 256) + (b * p + r)
carried acc p b r = grind arith

carry : (acc p b r p' t : ℕ) → p' ≡ p * 256 → b * p + r ≡ t → (acc * 256 + b) * p + r ≡ acc * p' + t
carry acc p b r p' t e h =
    carried acc p b r ∙ ap (λ m. acc * (p * 256) + m) h ∙ sym (ap (λ m. acc * m + t) e)

read_number-to_be_bytes :
    (k n acc : ℕ) (rest : List ℕ)
    → read_number k (to_be_bytes k n ++ rest) acc ≡ done (acc * 256 ^ k + n % 256 ^ k)
unfolding read_number to_be_bytes
read_number-to_be_bytes zero n acc rest = ap done (omega arith)
read_number-to_be_bytes (suc k) n acc rest =
    read_number-to_be_bytes k n (acc * 256 + n / 256 ^ k % 256) rest
    ∙ ap done (carry acc (256 ^ k) _ _ _ _ (pow-suc 256 k) (high_byte k n))

pub read_number_short : (k acc : ℕ) (bs : List ℕ) → length bs < k → read_number k bs acc ≡ panic
unfolding read_number
read_number_short zero acc bs h = absurd (omega arith)
read_number_short (suc k) acc [] h = refl
read_number_short (suc k) acc (x ∷ bs) h = read_number_short k (acc * 256 + x) bs (omega arith)

pub read_number_fits :
    (k n : ℕ) (rest : List ℕ) → n < 256 ^ k → read_number k (to_be_bytes k n ++ rest) 0 ≡ done n
read_number_fits k n rest h =
    read_number-to_be_bytes k n 0 rest
    ∙ ap done (let e : 0 * 256 ^ k + n % 256 ^ k ≡ n % 256 ^ k = omega arith in e ∙ mod-eq_of_lt h)

unfoldable pub write_number : List ℕ → ℕ → Run (List ℕ)
write_number (a ∷ b ∷ c ∷ d ∷ rest) n = done (to_be_bytes 4 n ++ rest)
write_number bs n = panic

unfoldable pub get_number : List ℕ → Run (ℕ × List ℕ)
unfolding read_number
get_number bs = elim (read_number 8 bs 0) [ panic ↦ panic | done n ↦ done (n, drop 8 bs) ]

abbrev pub next_byte : List ℕ → Run (ℕ × List ℕ)
next_byte [] = panic
next_byte (x ∷ bs) = done (x, bs)

abbrev pub is_cons : List ℕ → Bool
is_cons [] = false
is_cons (x ∷ bs) = true

pub get_number_lem :
    (n : ℕ) (rest : List ℕ) → n < 2 ^ 64 → get_number (to_be_bytes 8 n ++ rest) ≡ done (n, rest)
unfolding get_number
get_number_lem n rest h =
    let read = read_number_fits 8 n rest (omega arith) in
    rw (read, get_number) (unfold to_be_bytes in refl)

unfoldable pub crates : Buffers
unfolding write_number
crates = record {
  read_u64 = λ bs. read_number 8 bs 0;
  read_u32 = λ bs. read_number 4 bs 0;
  write_u32 = write_number;
  put_u64 = λ bs n. bs ++ to_be_bytes 8 n;
  put_slice = λ bs cs. bs ++ cs;
  put = λ bs cs. bs ++ cs;
  split_off = λ bs at. if ltb (length bs) at then panic else done (take at bs, drop at bs);
  advance = λ bs n. if ltb (length bs) n then panic else done (drop n bs);
  put_u8 = λ bs x. bs ++ (x ∷ []);
  has_remaining = is_cons;
  get_u8 = next_byte;
  split_to = λ bs at. if ltb (length bs) at then panic else done (take at bs, drop at bs);
  remaining = length;
  get_u64 = get_number;
  read_u64_lem = λ n rest h. read_number_fits 8 n rest (omega arith);
  read_u64_short = λ bs h. read_number_short 8 0 bs h;
  read_u32_lem = λ n rest h. read_number_fits 4 n rest (omega arith);
  write_u32_lem = λ a b c d n rest h. refl;
  put_u64_lem = λ bs n h. refl;
  put_slice_lem = λ bs cs. refl;
  put_lem = λ bs cs. refl;
  split_off_lem = λ bs at h. let room : ltb (length bs) at ≡ false = ground arith in rw room refl;
  put_u8_lem = λ bs x h. refl;
  has_remaining_nil = refl;
  has_remaining_cons = λ x bs. refl;
  get_u8_nil = refl;
  get_u8_cons = λ x bs. refl;
  split_to_lem = λ bs at h. let room : ltb (length bs) at ≡ false = ground arith in rw room refl;
  split_to_panics = λ bs at h. let room : ltb (length bs) at ≡ true = ground arith in rw room refl;
  advance_lem = λ bs n h. let room : ltb (length bs) n ≡ false = ground arith in rw room refl;
  remaining_lem = λ bs. refl;
  get_u64_lem = get_number_lem;
}

-- A slice as the buffer that a decoder reads.
abbrev pub slice_buf : Buf
slice_buf = record {
  B = List ℕ;
  has_remaining = is_cons;
  get_u8 = next_byte;
  contents = λ bs. bs;
  empty_lem = λ b e. rw e (refl);
  remaining_lem = λ b x xs e. rw e (refl);
  get_u8_lem = λ b x xs e. (xs, rw e (refl), refl);
}
