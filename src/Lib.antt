-- ===== src/Lib.antt =====
-- Trend: a small time-series store. This library models the parts of the program that decide what
-- is kept and what is read: the state of a series and its merges, the binary format, compaction,
-- aggregation and the reads. Paths are from the repository's root.
--
-- The parts and their files.
--   * Data, Times, Float: the structs of series.go and sketch_state.go as records (a slice is a
--     list; the Go field Data is `values` in the column states and `encoded` in a sketch bucket),
--     the helpers of series.go on times, and float64 as a bit pattern. Bit reversal and comparison
--     are computed from the pattern; rounded addition, division and the conversion of an integer
--     are the record `Arith`, a parameter, since Go's arithmetic is not in the repository.
--   * Maps: a Go map as an association list and `sortedTimes` as an insertion sort of its keys.
--   * Codec: codec.go and block.go. Reader is codecReader, a state monad with the sticky error of
--     the source; Writer has the functions that append numbers and columns; Block the body of each
--     kind of segment; Segment the header, `scan`, `decodeInto` and `applyRaw`; Segments the six
--     loops that cut a column into segments of at most 1024 rows; Series `appendTo`, `pending`,
--     `valid`, `versionOK` and `maxTime`. The other files below Codec prove.
--   * Samples, Counters: sample_state.go and counters_state.go, an operation of the struct each:
--     add, reset, count, appendable, min_time, merge, compact. Sketches has those of
--     sketch_state.go that do not look into a sketch; below it, Value is sketchValue with its bins,
--     Encoded the bytes of a sketch and `mergeBytes`, Merge the `Merge` and `Compact` of sketchData,
--     and Handle the Sketch of sketches.go with its quantiles, `storedSketch` and `encode`.
--   * State: pending in series.go. Runtime: what the program takes from Go and other packages, as
--     one record.
--   * Append: `append`, `marshal` and `canAppend` of codec.go.
--   * Db: the database of db.go over a store, which is a parameter, with `compact` of compact.go and
--     the `Add` of a sketch handle; New below it is `New` with the options of option.go, and
--     CachedLease the `Lease` of a cached store. Flush, Loads and Compacts prove.
--   * Buffer: the write buffer of db.go. Its mutex makes each method one step.
--   * Cached: storage/cached/cached.go over two stores, which are parameters (`Store`, the interface
--     of store.go), with what a primary store and a cache promise as named hypotheses, and its
--     configuration in Config.
--   * Agg: `fold` of agg.go.
--   * Reads: `sampleValues` and `sampleRange` of samples.go, `counterValues` and `counterRange` of
--     counters.go, and in Reads/Sketches `sketchRange` of sketches.go with the three reads that it
--     chooses from. The function that Go's iterator is handed is a parameter on a state of the
--     reader's.
--   * Examples: the theorems at concrete states.
--
-- How they interact: a write adds a row to a column state, in the buffer where there is one, or
-- updates the store with a delta of its own; `Flush` updates the store with each delta of the
-- buffer; an update calls `append`, which writes the delta behind the bytes of the series with
-- `appendTo`, or reads the series back with `pending`, merges the delta in memory and marshals the
-- result; `load` merges the tail that the buffer holds into what the store has; a read scans the
-- bytes, skips the segments out of its range, decodes the others and folds them.
--
-- Choices of the model. Numbers are naturals; a uint64 sum is taken modulo 2 ^ 64 where it is
-- computed, and a difference adds 2 ^ 64 first. A byte is below 256, and `int` has 64 bits. A Go
-- error is a value of `Error`. A `make` of a size that a stored number claims panics where it is
-- negative or above 2 ^ 48 bytes (`max_alloc`, of 64-bit Linux): that is `make_panic`, or `none` in
-- a quantile, and a merge, a compaction, an append, a load and a read end with it. What Go does with
-- a size below that and above the memory there is, is not modelled, and neither are sizes that only
-- a series of 2 ^ 38 bytes can reach. The package s2 is the record `Compressor`; the theorems on the
-- format suppose that it is lossless on blocks below 4 GB (`IsLossless`). The order in which Go
-- ranges over a set of operations is a parameter of the merges. The logarithm and the power of the
-- package math, the roundings and the conversions beside them are the record `Math`; the sort of
-- floats and the conversion of a float to uint64 are arguments of the quantiles. An int is its two's
-- complement word. A store is a record of operations on a state of its own; what it promises is a
-- named hypothesis (`IsPrimary`, `IsUpdating`, `IsLeaser`). The mutexes make each method of the
-- buffer one step, and a method of the database runs without others in between.
--
-- Bounds. `scan` runs on fuel, the length of its input: a round takes a byte at least. The
-- segment loops run on the number of rows: a round takes a row at least. `appendUvarint` runs nine
-- rounds and a last one: a uint64 has ten groups of seven bits. `append` and `marshal` call each
-- other on fuel; two calls are enough, since a merge leaves a state that is written as it is.
-- `collapse` runs on the number of bins: a round takes a bin. The other loops are structural.
-- `IsStorable` bounds the bytes of an encoded sketch by 2 ^ 20, so that a block stays below 4 GB.
--
-- Not modelled: `Open` and the registry of stores; the goroutines and timers of the database, of
-- which a tick is `flush` or `compact_seen`; the buffers that are pooled for encoding; the storage
-- adapters and the packages they call; the machine id and the benchmark. `values` and
-- `rangeValues` in memory are called by tests alone.
pub mod Prelude
pub mod Float
pub mod Data
pub mod Codec
pub mod Maps
pub mod Times
pub mod Samples
pub mod Counters
pub mod Agg
pub mod Reads
pub mod Cached
pub mod Sketches
pub mod State
pub mod Runtime
pub mod Append
pub mod Db
pub mod Buffer
pub mod Examples
