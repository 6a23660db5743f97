-- ===== src/Tfc/IdLookup.antt =====
-- tfc/block.rs: the answer to a search for a byte string.
use tdb_succinct_wasm.Base.{ℕ, ◌+◌, Option, none, some}

pub data IdLookupResult : Type 0 where
  found : ℕ → IdLookupResult
  closest : ℕ → IdLookupResult
  not_found : IdLookupResult

unfoldable pub offset : IdLookupResult → ℕ → IdLookupResult
offset (found i) by = found (i + by)
offset (closest i) by = closest (i + by)
offset not_found by = not_found

unfoldable pub default : IdLookupResult → ℕ → IdLookupResult
default (found i) d = found i
default (closest i) d = closest i
default not_found d = closest d

unfoldable pub map : IdLookupResult → (ℕ → ℕ) → IdLookupResult
map (found i) f = found (f i)
map (closest i) f = closest (f i)
map not_found f = not_found

unfoldable pub into_option : IdLookupResult → Option ℕ
into_option (found i) = some i
into_option (closest i) = none
into_option not_found = none
