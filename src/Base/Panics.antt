-- ===== src/Base/Panics.antt =====
-- Rust computations that may panic, and the `Result` of the fallible functions.
use mathlib.Core.Path.{◌≡◌, refl}
use mathlib.Core.Bool.{Bool, true, false}
use Prim.Native.Nat.{ℕ, ◌-◌, ◌≤◌}
use native.Mathlib.Omega.{arith}
use tdb_succinct_wasm.Base.Tests.{ltb, if◌then◌else◌}

-- `done a` returns a value; `panic` stands for an assertion, an index out of range, an unwrap of
-- nothing, or an arithmetic overflow, all of which end the program in a debug build.
pub data Run {ℓ} (A : Type ℓ) : Type ℓ where
  done : A → Run A
  panic : Run A

infixl 5 ◌>>=◌ ◌>>◌
abbrev pub ◌>>=◌ {ℓ κ} : {A : Type ℓ} {B : Type κ} → Run A → (A → Run B) → Run B
done a >>= f = f a
panic >>= f = panic

abbrev pub ◌>>◌ {ℓ} : {B : Type ℓ} → Run (Unit {0}) → Run B → Run B
m >> k = m >>= λ _. k

-- `assert!(b)`.
abbrev pub assert : Bool → Run (Unit {0})
assert true = done tt
assert false = panic

-- `a - b` on unsigned numbers.
abbrev pub checked_sub : ℕ → ℕ → Run ℕ
checked_sub a b = if ltb a b then panic else done (a - b)

-- The inversion of a bind that returned.
pub >>=-eq-done {ℓ κ} :
    {A : Type ℓ} {B : Type κ} (m : Run A) (f : A → Run B) {b : B}
    → (m >>= f) ≡ done b
    → (a : A) × (m ≡ done a) × (f a ≡ done b)
>>=-eq-done (done a) f h = (a, refl, h)
>>=-eq-done panic f h = cc

-- Rust's `Result<A, E>`.
pub data Result {ℓ} (E : Type 0) (A : Type ℓ) : Type ℓ where
  ok : A → Result E A
  err : E → Result E A

pub checked_sub_lem : (a b : ℕ) → b ≤ a → checked_sub a b ≡ done (a - b)
checked_sub_lem a b h = ground arith
