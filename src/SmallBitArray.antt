-- ===== src/SmallBitArray.antt =====
-- smallbitarray.rs: 63 bits in one word, whose lowest bit is reserved.
pub mod Laws
use tdb_succinct_wasm.Base.{
  ℕ, zero, suc, ◌+◌, ◌-◌, ◌*◌, ◌/◌, ◌%◌, ◌^◌, Bool, true, false, not, bit_and, Option, none, some,
  List, [], ◌∷◌, ltb, leb, ◌==◌, if◌then◌else◌, Run, done, panic, ◌>>=◌, ◌>>◌, assert,
}
use tdb_succinct_wasm.Bits.Shift.{◌<<<◌, ◌>>>◌, u64}
use tdb_succinct_wasm.Bits.Count.{count_ones}

pub record SmallBitArray : Type 0 where
  pub val : ℕ

-- `SmallBitArray::LEN`.
abbrev pub len : ℕ
len = 63

pub new : ℕ → Run SmallBitArray
new val = if not (bit_and val 1 == 0) then panic else done (record { val = val })

pub get : SmallBitArray → ℕ → Run Bool
get a index = if leb len index then panic else done (not (bit_and (a.val >>> (len - index)) 1 == 0))

unfoldable pub inner : SmallBitArray → ℕ
inner a = a.val

-- `!(u64::MAX >> (index + 1))`.
pub rank1 : SmallBitArray → ℕ → Run ℕ
rank1 a index =
    if leb len index
    then panic
    else (let mask = 2 ^ 64 - 1 - ((2 ^ 64 - 1) >>> (index + 1)) in
        done (count_ones (bit_and a.val mask)))

pub record SmallBitArrayIter : Type 0 where
  pub val : ℕ
  pub ix : ℕ

pub iter : SmallBitArray → SmallBitArrayIter
iter a = record { val = a.val; ix = 0 }

-- `next`, with the iterator behind the call.
pub next : SmallBitArrayIter → Option Bool × SmallBitArrayIter
next it = if leb len it.ix then (none, it) else (
  some (not (bit_and it.val 0x8000_0000_0000_0000 == 0)),
  record { val = u64 (it.val <<< 1); ix = it.ix + 1 },
)

-- All that the iterator hands out in `n` calls.
pub collect : ℕ → SmallBitArrayIter → List Bool
collect zero it = []
collect (suc n) it =
    let (item, it') = next it in
    let rest = collect n it' in elim item [ none ↦ [] | some bit ↦ bit ∷ rest ]
