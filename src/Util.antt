-- ===== src/Util.antt =====
-- util.rs: the common prefix of two byte strings, their order, and the padding of a writer.
pub mod Padding
pub mod Prefix
use Prim.Native.Nat.{compare, Ordering}
use tdb_succinct_wasm.Base.{
  ℕ, zero, suc, ◌+◌, ◌-◌, ◌*◌, ◌/◌, ◌%◌, ◌≤◌, ◌<◌, ◌≡◌, Bool, true, false, ◌&&◌, Option, none, some,
  List, [], ◌∷◌, ◌++◌, length, get_elem?, get_or, replicate, ltb, leb, ◌==◌, if◌then◌else◌, Run,
  done, panic, ◌>>=◌, Result, ok, err, checked_sub,
}
use tdb_succinct_wasm.Words.{byte_at, to_be_bytes}

-- The loop of `find_common_prefix`. Each round takes a byte of the first slice, so a fuel above its
-- length is enough.
common_prefix_loop : ℕ → List ℕ → List ℕ → ℕ → Run ℕ
common_prefix_loop zero b1 b2 common = panic
common_prefix_loop (suc fuel) b1 b2 common =
    let stop : Run ℕ = done common in
    let again = common_prefix_loop fuel b1 b2 (common + 1) in
    let compared =
      (byte_at b1 common >>= λ x. byte_at b2 common >>= λ y. if x == y then again else stop) in
    if ltb common (length b1) && ltb common (length b2) then compared else stop

pub find_common_prefix : List ℕ → List ℕ → Run ℕ
unfolding common_prefix_loop
find_common_prefix b1 b2 = common_prefix_loop (length b1 + 1) b1 b2 0

pub find_common_prefix_ord : List ℕ → List ℕ → Run (ℕ × Ordering)
find_common_prefix_ord b1 b2 = find_common_prefix b1 b2 >>= λ common_prefix.
    if common_prefix == length b1 && length b1 == length b2
    then done (common_prefix, Ordering.eq)
    else if length b1 == common_prefix
    then done (common_prefix, Ordering.lt)
    else if length b2 == common_prefix
    then done (common_prefix, Ordering.gt)
    else (byte_at b1 common_prefix >>= λ x.
        byte_at b2 common_prefix >>= λ y. done (common_prefix, compare x y))

-- What the writing functions need of `std::io::Write`. A call answers the writer it leaves behind,
-- also where it answers an error.
pub record Writer : Type 1 where
  pub W : Type 0
  pub Error : Type 0
  pub write_all : W → List ℕ → W × Result Error (Unit {0})

module _ (io : Writer) where
  open io use {W, Error, write_all}

  -- The operator `?`: an error ends the function, with the writer as it is.
  unfoldable pub and_then :
      {A : Type 0} → W × Result Error (Unit {0}) → (W → W × Result Error A) → W × Result Error A
  and_then (w, ok _) next = next w
  and_then (w, err e) next = (w, err e)

  unfoldable pub write_nul_terminated_bytes : W → List ℕ → W × Result Error ℕ
  unfolding and_then
  write_nul_terminated_bytes w bytes =
      and_then (write_all w bytes)
        (λ w'. and_then (write_all w' (0 ∷ [])) (λ w''. (w'', ok (length bytes + 1))))

  -- A width of 0 divides by zero.
  unfoldable pub write_padding : W → ℕ → ℕ → Run (W × Result Error (Unit {0}))
  unfolding and_then
  write_padding w current_pos width =
      if width == 0
      then panic
      else (checked_sub width (current_pos % width) >>= λ missing.
          done (and_then (write_all w (replicate (missing % width) 0)) (λ w'. (w', ok tt))))

  unfoldable pub write_u64 : W → ℕ → W × Result Error (Unit {0})
  unfolding and_then
  write_u64 w num = and_then (write_all w (to_be_bytes 8 num)) (λ w'. (w', ok tt))

-- `compare_or_result`: errors come first and are all equal.
unfoldable pub compare_or_result : {E : Type 0} → Result E ℕ → Result E ℕ → Ordering
compare_or_result (err e) (err e') = Ordering.eq
compare_or_result (err e) (ok y) = Ordering.lt
compare_or_result (ok x) (err e) = Ordering.gt
compare_or_result (ok x) (ok y) = compare x y
