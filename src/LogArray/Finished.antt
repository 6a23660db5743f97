-- ===== src/LogArray/Finished.antt =====
-- A finished array of numbers, opened again.
use tdb_succinct_wasm.Base.{ℕ, ◌^◌, ◌<◌, ◌≡◌, refl, List, [], ◌++◌, length, done, ok}
use tdb_succinct_wasm.Words.{Buffers}
use tdb_succinct_wasm.LogArray.{LogArray, parse}
use tdb_succinct_wasm.LogArray.Entry
use tdb_succinct_wasm.LogArray.Builder.{Builder, finalize}
use tdb_succinct_wasm.LogArray.Builder.Push.{Encodes}
use tdb_succinct_wasm.LogArray.Builder.Finalize.{finalize_lem, header}
use tdb_succinct_wasm.LogArray.RoundTrip.{array_of, parse-Data, Data-Represents}

-- A finished array of numbers of at most 2 ^ 56 - 1 elements, opened.
pub record Finished (io : Buffers) (b : Builder) (vs : List ℕ) : Type 0 where
  pub bytes : List ℕ
  pub array : LogArray
  pub words : List ℕ
  pub run : finalize io b ≡ done bytes
  pub parsed : parse io bytes ≡ done (ok array)
  pub represents : Entry.Represents array words vs
  pub len : array.len ≡ length vs

pub finished :
    (io : Buffers) {b : Builder} {vs : List ℕ}
    → Encodes [] b vs
    → length vs < 2 ^ 56
    → Finished io b vs
finished io {b} {vs} enc short =
    let (data_bytes, run, d) = finalize_lem io enc short in
    let tail = header (length vs) b.width in
    record {
      bytes = data_bytes ++ tail;
      array = array_of (data_bytes ++ tail) (length vs) b.width;
      words = d.words;
      run = run;
      parsed = parse-Data io b.width vs enc.width_pos enc.width_le enc.small short d;
      represents = Data-Represents tail d enc.width_pos enc.width_le enc.small;
      len = refl;
    }
