-- ===== src/LogArray/Late.antt =====
-- logarray.rs: `LateLogArrayBufBuilder`, which holds the values back until their width is known.
pub mod RoundTrip
use tdb_succinct_wasm.Base.{
  ℕ, ◌+◌, ◌<◌, ◌≡◌, Option, none, some, List, [], ◌∷◌, ◌++◌, length, ltb, if◌then◌else◌, Run, done,
  ◌>>=◌,
}
use tdb_succinct_wasm.Words.{Buffers}
use tdb_succinct_wasm.Words.Width.{calculate_width}
use tdb_succinct_wasm.LogArray.Builder

pub record LateBuilder : Type 0 where
  pub buf : List ℕ
  pub vals : List ℕ
  pub width : ℕ

unfoldable pub new : List ℕ → LateBuilder
new buf = record { buf = buf; vals = []; width = 0 }

pub count : LateBuilder → ℕ
count b = length b.vals

pub push : LateBuilder → ℕ → LateBuilder
push b val =
    let width = calculate_width val in
    record b { vals = b.vals ++ (val ∷ []); width = if ltb b.width width then width else b.width }

unfoldable pub push_vec : LateBuilder → List ℕ → LateBuilder
unfolding push
push_vec b [] = b
push_vec b (val ∷ vals) = push_vec (push b val) vals

-- The last element of a vector, and the vector without it.
pub last_of : List ℕ → Option ℕ
last_of [] = none
last_of (x ∷ []) = some x
last_of (x ∷ y ∷ xs) = last_of (y ∷ xs)

unfoldable pub init_of : List ℕ → List ℕ
init_of [] = []
init_of (x ∷ []) = []
init_of (x ∷ y ∷ xs) = x ∷ init_of (y ∷ xs)

unfoldable pub last : LateBuilder → Option ℕ
unfolding last_of
last b = last_of b.vals

-- `pop` keeps the width as it was.
unfoldable pub pop : LateBuilder → Option ℕ × LateBuilder
unfolding last_of init_of
pop b = (last_of b.vals, record b { vals = init_of b.vals })

module _ (io : Buffers) where
  unfoldable pub finalize : LateBuilder → Run (List ℕ)
  finalize b = do
    builder ← Builder.push_vec io (Builder.new b.buf b.width) b.vals
    Builder.finalize io builder

  pub finalize_header_first : LateBuilder → Run (List ℕ)
  unfolding count
  finalize_header_first b = do
    word ← Builder.control_word io (count b) b.width
    builder ← Builder.push_vec io (Builder.new (io.put b.buf word) b.width) b.vals
    done (Builder.finalize_without_control_word io builder)
