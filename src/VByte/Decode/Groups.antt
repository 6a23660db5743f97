-- ===== src/VByte/Decode/Groups.antt =====
-- `decode_buf` on what the encoders write.
use native.Mathlib.Nat.{div-add-mod}
use tdb_succinct_wasm.Base.{
  ℕ, zero, suc, ◌+◌, ◌*◌, ◌/◌, ◌%◌, ◌^◌, ◌<◌, ◌≡◌, ap, ◌∙◌, inl, inr, List, ◌++◌, ltb, length, done,
  ok, Bool-cases, arith,
}
use tdb_succinct_wasm.VByte.{Buf, decode_loop, decode_buf}
use tdb_succinct_wasm.VByte.{encoding_len}
use tdb_succinct_wasm.VByte.Encode.{groups, width_step, encoding_len-groups}
use tdb_succinct_wasm.VByte.Decode.{pow_round, last_round, inner_round}

module _ (buf : Buf) where
  open buf use {B, contents}

  -- The loop on the groups of a number, with other bytes behind them.
  decode_loop-groups :
      (k fuel num acc n : ℕ) (b : B) (rest : List ℕ)
      → contents b ≡ groups k num ++ rest
      → num < 2 ^ (7 * k + 1)
      → k < fuel
      → n + k ≡ 9
      → acc < 2 ^ (7 * n)
      → (b' : B) × (decode_loop buf fuel b acc (7 * n) n
          ≡ done (ok (acc + num * 2 ^ (7 * n), n + length (groups k num), b')))
        × (contents b' ≡ rest)
  unfolding groups
  decode_loop-groups k zero num acc n b rest e h f m p = absurd (omega arith)
  decode_loop-groups zero (suc fuel) num acc n b rest e h f m p =
      let (b', run, left, _) =
        last_round buf fuel acc n (num + 128) b rest e (omega arith) (omega arith) (omega arith)
          (λ nine. omega arith) p in
      let same : (num + 128) % 128 ≡ num = omega arith in (b', rw same at run, left)
  decode_loop-groups (suc k) (suc fuel) num acc n b rest e h f m p =
      elim (Bool-cases (ltb num 128)) [
        | inl small ↦
            let below : num < 128 = ground arith in
            let (b', run, left, _) =
              last_round buf fuel acc n (num + 128) b rest (rw small at e) (omega arith)
                (omega arith) (omega arith) (λ nine. absurd (omega arith)) p in
            let same : (num + 128) % 128 ≡ num = omega arith in
            (b', rw small (rw same at run), left)
        | inr large ↦
            let (b1, step, left, bound) =
              inner_round buf fuel acc n (num % 128) b (groups k (num / 128) ++ rest)
                (rw large at e) (omega arith) (omega arith) p in
            let (b', run, left') =
              decode_loop-groups k fuel (num / 128) (acc + num % 128 * 2 ^ (7 * n)) (n + 1) b1 rest
                left (omega (arith, width_step k)) (omega arith) (omega arith) bound in
            let total : acc + num % 128 * 2 ^ (7 * n) + num / 128 * 2 ^ (7 * (n + 1))
                ≡ acc + num * 2 ^ (7 * n) =
              omega (
                arith,
                ap (λ (t : ℕ). num / 128 * t) (pow_round n),
                ap (λ (t : ℕ). t * 2 ^ (7 * n)) (div-add-mod num 128),
              ) in
            let size : n + 1 + length (groups k (num / 128))
                ≡ n + suc (length (groups k (num / 128))) =
              omega arith in
            (b', rw large (step ∙ rw (total, size) at run), left')
      ]

  -- On what the encoders write of a `u64`, with any bytes behind it, `decode_buf` answers the
  -- number and the length of its encoding, and leaves exactly the bytes behind.
  pub decode_buf-groups :
      (num : ℕ) (b : B) (rest : List ℕ)
      → num < 2 ^ 64
      → contents b ≡ groups 9 num ++ rest
      → (b' : B) × (decode_buf buf b ≡ done (ok (num, encoding_len num, b'))) × (contents b' ≡ rest)
  unfolding decode_buf
  decode_buf-groups num b rest h e =
      let (b', run, left) =
        decode_loop-groups 9 10 num 0 0 b rest e h (omega arith) (omega arith) (omega arith) in
      let same : 0 + num * 2 ^ (7 * 0) ≡ num = omega arith in
      let size : 0 + length (groups 9 num) ≡ encoding_len num =
        omega (arith, encoding_len-groups num h) in
      (b', rw (same, size) at run, left)
