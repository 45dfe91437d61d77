-- ===== src/Db.antt =====
-- The database of db.go and compact.go, and what a handle writes through it. The store is the
-- interface of store.go on a state `S`; a lease is what the optional interface `leaser` gives. What
-- package time makes of a point in time or of a duration is an argument.
pub mod Flush
pub mod Loads
pub mod Compacts
pub mod CachedLease
pub mod New
use trend.Prelude.{ℕ, ◌+◌, ◌%◌, ◌^◌, Bool, true, false, ◌&&◌, ◌||◌, not, Option, none, some}
use trend.Prelude.{List, [], ◌∷◌, ◌++◌, foldl, ltb, if◌then◌else◌}
use trend.Float.{Float64, is_nan, is_inf}
use trend.Data.{Pending, no_pending}
use trend.Samples
use trend.Counters
use trend.Sketches
use trend.Codec.Reader.{Error, make_panic}
use trend.Codec.Series.{Result, ok, err, pending, version_ok}
use trend.Cached.{Bytes, Store, is_set}
use trend.Buffer.{
  Key, same_key, Buffer, add_sample, add_counter, add_sketch, clone, flush_items, recycle,
}
use trend.State.{merge_panics, compact_panics, merge_pending, compact_pending}
use trend.Runtime.{Runtime}
use trend.Append.{append_series}

-- The errors: those of codec.go, those of a store, and errInvalidSketchValue.
pub data Failure (X : Type 0) : Type 0 where
  codec : Error → Failure X
  of_store : X → Failure X
  invalid_sketch_value : Failure X

-- Durations, as the words of their int64 nanoseconds.
pub record Compactor : Type 0 where
  pub after : ℕ
  pub span : ℕ

pub record Db (S : Type 0) : Type 0 where
  pub store : S
  pub replica : ℕ
  pub clock : ℕ
  pub seen : List Key
  pub buffer : Option Buffer
  pub compactor : Compactor

-- `Lease` and the `release` that it hands out.
pub record Leaser (X S : Type 0) : Type 0 where
  pub lease : S → Key → ℕ → S × (Bool × Option (Failure X))
  pub release : S → Key → S × Option (Failure X)

-- leaseTTL in nanoseconds.
abbrev pub lease_ttl : ℕ
lease_ttl = 30_000_000_000

-- d > 0 on a duration.
abbrev pub is_positive : ℕ → Bool
is_positive d = ltb 0 d && ltb d (2 ^ 63)

abbrev pub sample_key : Key → Key
sample_key key = 115 ∷ 58 ∷ key

abbrev pub counter_key : Key → Key
counter_key key = 99 ∷ 58 ∷ key

abbrev pub sketch_key : Key → Key
sketch_key key = 104 ∷ 58 ∷ key

abbrev pub lease_key : Key → Key
lease_key key = 99 ∷ 111 ∷ 109 ∷ 112 ∷ 97 ∷ 99 ∷ 116 ∷ 58 ∷ key

-- A nil slice is a series without bytes, and an `append` of nothing to nil is nil.
abbrev pub series_of : Bytes → List ℕ
series_of bytes = elim bytes [ none ↦ [] | some bs ↦ bs ]

abbrev pub bytes_of : List ℕ → Bytes
bytes_of [] = none
bytes_of (b ∷ bs) = some (b ∷ bs)

-- `append` of codec.go. Two calls are fuel enough, so that the last case is not met.
abbrev pub append : Runtime → List ℕ → Option Pending → Result (List ℕ)
append go s delta = elim (append_series go 2 s delta) [ some r ↦ r | none ↦ ok [] ]

abbrev pub marshal : Runtime → Pending → Result (List ℕ)
marshal go p = append go [] (some p)

-- A set of keys.
abbrev see : Key → List Key → List Key
see key [] = key ∷ []
see key (k ∷ ks) = if same_key k key then k ∷ ks else k ∷ see key ks

module _ {S : Type 0} where
  -- The handles of a key.
  unfoldable pub samples : Db S → Key → Db S × Key
  samples db key = (record db { seen = see (sample_key key) db.seen }, sample_key key)

  unfoldable pub counters : Db S → Key → Db S × Key
  counters db key = (record db { seen = see (counter_key key) db.seen }, counter_key key)

  unfoldable pub sketches : Db S → Key → Db S × Key
  sketches db key = (record db { seen = see (sketch_key key) db.seen }, sketch_key key)

  abbrev pub recycled : Pending → Db S → Db S
  recycled delta db = elim db.buffer [
    | none ↦ db
    | some b ↦ record db { buffer = some (recycle delta b) }
  ]

module _ {X : Type 0} (go : Runtime) where
  -- What the closure of an `Update` returns for a result of the codec.
  abbrev pub written : Result (List ℕ) → Bytes × Option (Failure X)
  written r = elim r [ ok bs ↦ (bytes_of bs, none) | err e ↦ (none, some (codec e)) ]

  unfoldable pub merged_series : Pending → Bytes → Bytes × Option (Failure X)
  merged_series delta old = written (append go (series_of old) (some delta))

  -- The stored series with the tail that the buffer holds.
  unfoldable pub load_tail : List ℕ → Pending → List ℕ × Option (Failure X)
  load_tail raw tail = elim (pending go.s2 raw) [
    | err e ↦ ([], some (codec e))
    | ok current ↦ elim (merge_panics current tail) [
      | true ↦ ([], some (codec make_panic))
      | false ↦ elim (marshal go (merge_pending go current tail)) [
        | err e ↦ ([], some (codec e))
        | ok bs ↦ (bs, none)
      ]
    ]
  ]

  -- `seconds` is `uint64(d.Seconds())`.
  unfoldable pub compact_bytes : (ℕ → ℕ) → Compactor → ℕ → Bytes → Bytes × Option (Failure X)
  compact_bytes seconds c cutoff old = elim (pending go.s2 (series_of old)) [
    | err e ↦ (none, some (codec e))
    | ok current ↦ elim (compact_panics current (is_positive c.span)) [
      | true ↦ (none, some (codec make_panic))
      | false ↦
          written
            (marshal go (compact_pending go current cutoff (is_positive c.span) (seconds c.span)))
    ]
  ]

module _ {X S : Type 0} (store : Store Key (Failure X) S) where
  unfoldable pub load_raw : Db S → Key → Db S × (List ℕ × Option (Failure X))
  load_raw db key =
      let (s, (raw, e)) = store.load db.store key in
      (record db { store = s }, elim e [ some e ↦ ([], some e) | none ↦ (series_of raw, none) ])

module _ {X S : Type 0} (go : Runtime) (store : Store Key (Failure X) S) where
  unfoldable pub merge : Db S → Key → Pending → Db S × Option (Failure X)
  merge db key delta =
      let (s, e) = store.update db.store key (merged_series go delta) in
      (record db { store = s }, e)

  -- A write to the buffer, or of a delta of its own.
  abbrev write : (ℕ → Buffer → Buffer) → (ℕ → Pending) → Db S → Key → Db S × Option (Failure X)
  write add delta db key =
      let clock = (db.clock + 1) % 2 ^ 64 in
      let db : Db S = record db { clock = clock } in
      elim db.buffer [
        | some b ↦ (record db { buffer = some (add clock b) }, none)
        | none ↦ merge db key (delta clock)
      ]

  unfoldable pub write_sample : Db S → Key → ℕ → Float64 → Db S × Option (Failure X)
  write_sample db key at value =
      write (λ clock b. add_sample key at value clock db.replica b)
        (λ clock. record no_pending {
          samples = trend.Samples.add no_pending.samples at value clock db.replica;
        })
        db key

  unfoldable pub write_counter : Db S → Key → ℕ → ℕ → Db S × Option (Failure X)
  write_counter db key at value =
      write (λ clock b. add_counter key at db.replica clock value b)
        (λ clock. record no_pending {
          counters = trend.Counters.add no_pending.counters at db.replica clock value;
        })
        db key

  unfoldable pub write_sketch : Db S → Key → ℕ → Float64 → Db S × Option (Failure X)
  write_sketch db key at value =
      write (λ clock b. add_sketch key at value clock db.replica b)
        (λ clock. record no_pending {
          sketches = trend.Sketches.add no_pending.sketches at value clock db.replica;
        })
        db key

  -- `Add` of a sketch handle.
  unfoldable pub add_observation : Db S → Key → ℕ → Float64 → Db S × Option (Failure X)
  add_observation db key at value =
      if is_nan value || is_inf value
      then (db, some invalid_sketch_value)
      else write_sketch db key at value

  unfoldable pub load : Db S → Key → Db S × (List ℕ × Option (Failure X))
  load db key =
      let (db', (raw, e)) = load_raw store db key in
      (
        db',
        elim e [
          | some e ↦ ([], some e)
          | none ↦ elim (version_ok raw) [
            | some e ↦ ([], some (codec e))
            | none ↦ elim db'.buffer [
              | none ↦ (raw, none)
              | some b ↦ elim (clone key b) [
                | none ↦ (raw, none)
                | some tail ↦ load_tail go raw tail
              ]
            ]
          ]
        ],
      )

  -- The loop of `Flush` on the items that `range` has yet to visit.
  unfoldable pub flush_loop : List (Key × Pending) → Db S → Db S × Option (Failure X)
  flush_loop [] db = (db, none)
  flush_loop ((key, delta) ∷ rest) db =
      let (db', e) = merge db key delta in
      elim e [ some e ↦ (db', some e) | none ↦ flush_loop rest (recycled delta db') ]

  unfoldable pub flush : Db S → Db S × Option (Failure X)
  flush db = elim db.buffer [
    | none ↦ (db, none)
    | some b ↦ let (items, b') = flush_items b in flush_loop items (record db { buffer = some b' })
  ]

  -- `Close`, behind the end of the background loops.
  unfoldable pub close : Db S → Db S × Option (Failure X)
  close db =
      let (db', e) = flush db in
      elim e [
        | some e ↦ (db', some e)
        | none ↦ let (s, e) = store.close db'.store in (record db' { store = s }, e)
      ]

  module _ (lease : Option (Leaser X S)) (seconds : ℕ → ℕ) where
    -- `cutoff` is the Unix time of `time.Now().Add(-after)`.
    unfoldable pub compact : Db S → Key → ℕ → Db S × Option (Failure X)
    compact db key cutoff =
        let update : S → S × Option (Failure X) =
          λ s. store.update s key (compact_bytes go seconds db.compactor cutoff) in
        if not (is_positive db.compactor.after) || not (is_positive db.compactor.span)
        then (db, none)
        else elim lease [
          | none ↦ let (s, e) = update db.store in (record db { store = s }, e)
          | some l ↦
              let (s, (locked, e)) = l.lease db.store (lease_key key) lease_ttl in
              elim (is_set e || not locked) [
                | true ↦ (record db { store = s }, e)
                | false ↦
                    let (s', e') = update s in
                    (record db { store = (l.release s' (lease_key key)).0 }, e')
              ]
        ]

    -- A tick of `compactLoop`: the keys in the order of `Range`, each with its cutoff.
    unfoldable pub compact_seen : Db S → List (Key × ℕ) → Db S
    compact_seen db visits = foldl (λ db v. (compact db v.0 v.1).0) db visits
