-- ===== src/Lib.antt =====
-- Succinct data structures of TerminusDB: a model of the code under src/ with its correctness.
--
-- The program stores sets of numbers and strings in immutable byte buffers and answers queries on
-- them in place. From the bottom up, with the files that model each part:
--
-- - Base: numbers, Boolean tests, lists, and the outcomes of code. `Run A` is what returns an `A` or
--   panics; `Result E A` is Rust's `Result`. Integers are natural numbers with the wrap-around of
--   the code written out; a debug build's overflow is a panic (`checked_sub`).
-- - Bits: the digits of a number, shifts, the count of ones, masks.
-- - Words: `to_be_bytes`, slices, and `Buffers`, the interface of the crates `byteorder` and `bytes`
--   with what their documentation says. All code over buffers takes a value of it; Tests/Crates has
--   a concrete one. Words/Stream reads a list of words as one stream of bits.
-- - VByte (src/vbyte.rs): `encoding_len`, `encode_slice`, `encode_vec`, `encode_array`,
--   `decode_buf`. The decoder reads through the interface `Buf`. Its loop has a fuel of 10 rounds,
--   and a tenth inner byte already ends it. VByte/Sync is `decode_reader` and `write_sync`, over the
--   interfaces `Reader` of `std::io::Read` and `Writer` of `std::io::Write`; the fuel is the same.
-- - Util and Words/Width (src/util.rs): common prefixes, padding, `calculate_width`. The helpers that
--   write take the interface `Writer` of `std::io::Write`, whose calls can err and leave a writer
--   behind either way. The fuel of `find_common_prefix` is one more than the length of its first
--   slice.
-- - LogArray (src/logarray.rs): `LogArray` with the checks of its parsers, `entry`, iterator and
--   slice; LogArray/Builder is `LogArrayBufBuilder`, LogArray/Late is `LateLogArrayBufBuilder`.
--   Builders are records passed from call to call. `Represents` says which values an array holds,
--   `Encodes` which values a builder took.
-- - Monotonic (src/logarray.rs): `MonotonicLogArray`; each round of its search shrinks the range, so
--   a fuel above the length is enough.
-- - BitArray (src/bitarray.rs): `BitArray`, its iterator over blocks, and `BitArrayBufBuilder` in
--   BitArray/Builder.
-- - SmallBitArray (src/smallbitarray.rs): 63 bits in a word.
-- - BitIndex (src/bitindex.rs): rank queries; BitIndex/Select has the select queries and
--   BitIndex/Build the construction from a buffer. A bit index reads one bit array and two log
--   arrays of counts, as `IsIndexed` says.
-- - AdjacencyList (src/adjacencylist.rs): pairs over a log array and a bit index; the two buffer
--   builders are AdjacencyList/Builder.
-- - WaveletTree (src/wavelettree.rs): reading a wavelet tree; WaveletTree/Lookup is `WaveletLookup`.
-- - Tfc (src/tfc/block.rs): blocks of a front-coded dictionary. Tfc/Block has the header, the parser
--   and the builder, Tfc/Block/Lookup `entry`, `id` and the iterator, Tfc/Entry the byte strings in
--   several pieces, Tfc/IdLookup the answers of a search. `Holds` says which strings a block holds.
--   The size of a handle of `Bytes` is a parameter (`size_of`). The fuel of `cmp` is the number of
--   pieces of both sides, and each round ends one.
-- - Tfc/Dict (src/tfc/dict.rs): the builder and the dictionary over blocks and their offsets.
--   Its iterators run on a fuel of one round more than there are blocks, and than a block has
--   entries, so that their own test of the end is what stops them.
--   `blocks_behind` cuts a list of strings into the builder's blocks, `Stores` says which blocks a
--   dictionary is made of. The search over the heads shrinks its range in each round, so a fuel above
--   the number of blocks is enough.
-- - Tests: concrete runs.
--
-- Not modelled: the file builders over `SyncableFile` and the readers of streams (I/O), the merging
-- iterators of src/util.rs, the construction of wavelet trees (files and the crate `bitvec`), the
-- other files of src/tfc/, `SizedDictEntryBuf` and `parse_from_reader` in src/tfc/block.rs, and
-- src/storage/. The adapter `chunks` of the crate itertools is a parameter, with `IsChunked` as what
-- its documentation says. A `usize` has 64 bits, also for the wasm targets of the crate, where Rust's
-- has 32.
pub mod Base
pub mod Bits
pub mod VByte
pub mod Util
pub mod Tests
pub mod Words
pub mod LogArray
pub mod Monotonic
pub mod BitArray
pub mod SmallBitArray
pub mod BitIndex
pub mod AdjacencyList
pub mod WaveletTree
pub mod Tfc
