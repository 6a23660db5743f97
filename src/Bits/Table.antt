-- ===== src/Bits/Table.antt =====
-- Facts about all values of a byte, checked by evaluation.
use tdb_succinct_wasm.Base.{
  ℕ, zero, suc, ◌%◌, ◌<◌, bit_and, ◌≡◌, refl, Bool, true, ◌&&◌, ◌==◌, arith,
}

-- Two functions answer alike on every number below `n`.
agree : (ℕ → ℕ) → (ℕ → ℕ) → ℕ → Bool
agree f g zero = true
agree f g (suc n) = (f n == g n) && agree f g n

agree→eq : (f g : ℕ → ℕ) (n i : ℕ) → agree f g n ≡ true → i < n → f i ≡ g i
unfolding agree
agree→eq f g zero i h p = absurd (omega arith)
agree→eq f g (suc n) i h p = ground (arith, agree→eq f g n i)

pub bit_and-0x7f : (b : ℕ) → b < 256 → bit_and b 0x7f ≡ b % 128
unfolding agree
bit_and-0x7f b h = agree→eq (λ c. bit_and c 0x7f) (λ c. c % 128) 256 b refl h
