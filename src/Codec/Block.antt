-- ===== src/Codec/Block.antt =====
-- The body of a segment, written and read: the column and bucket codecs of block.go.
use Prim.Native.Nat.{bit_xor}
use trend.Prelude.{ℕ, zero, suc, ◌+◌, Bool, true, false, Option, none, some, ◌||◌}
use trend.Prelude.{List, [], ◌∷◌, ◌++◌, length}
use trend.Float.{Float64, is_nan, is_inf}
use trend.Data.{SampleBucket, CounterBucket, SketchBucket, SampleData, CounterData, SketchData}
use trend.Codec.Reader.{
  Error, shape_codec, Reader, ReaderM, ready, pure, ◌>>=◌, u64, uvarint, count, bytes, delta,
  float_xor, float_of_reversed, done,
}
use trend.Codec.Writer.{append_uvarint, sub64, append_delta, append_float, append_float_xor}

unfoldable pub append_sample_raw : List ℕ → List ℕ → List Float64 → List ℕ → List ℕ → List ℕ
append_sample_raw dst time values clock replica =
    append_delta (append_delta (append_float_xor (append_delta dst time) values) clock) replica

unfoldable pub append_counter_raw : List ℕ → List ℕ → List ℕ → List ℕ → List ℕ → List ℕ
append_counter_raw dst time replica clock value =
    append_delta (append_delta (append_delta (append_delta dst time) value) replica) clock

-- What `appendSampleBuckets` and `decodeSampleBuckets` carry from one bucket to the next.
pub record BucketDelta : Type 0 where
  pub time : ℕ
  pub count : ℕ
  pub sum : ℕ
  pub min : ℕ
  pub max : ℕ
  pub first : ℕ
  pub last : ℕ

abbrev pub no_delta : BucketDelta
no_delta = record { time = 0; count = 0; sum = 0; min = 0; max = 0; first = 0; last = 0 }

unfoldable pub append_sample_buckets_loop : List ℕ → BucketDelta → List SampleBucket → List ℕ
append_sample_buckets_loop dst prev [] = dst
append_sample_buckets_loop dst prev (b ∷ bs) =
    let dst = append_uvarint dst (sub64 b.time prev.time) in
    let dst = append_uvarint dst (sub64 b.count prev.count) in
    let (dst, sum) = append_float dst b.sum prev.sum in
    let (dst, min) = append_float dst b.min prev.min in
    let (dst, max) = append_float dst b.max prev.max in
    let (dst, first) = append_float dst b.first prev.first in
    let (dst, last) = append_float dst b.last prev.last in
    append_sample_buckets_loop dst
      (record {
        time = b.time;
        count = b.count;
        sum = sum;
        min = min;
        max = max;
        first = first;
        last = last;
      })
      bs

unfoldable pub append_sample_buckets : List ℕ → List SampleBucket → List ℕ
append_sample_buckets dst buckets = append_sample_buckets_loop dst no_delta buckets

unfoldable pub append_counter_buckets_loop : List ℕ → ℕ → ℕ → List CounterBucket → List ℕ
append_counter_buckets_loop dst prev_time prev_sum [] = dst
append_counter_buckets_loop dst prev_time prev_sum (b ∷ bs) =
    let dst = append_uvarint dst (sub64 b.time prev_time) in
    let dst = append_uvarint dst (sub64 b.sum prev_sum) in
    append_counter_buckets_loop dst b.time b.sum bs

unfoldable pub append_counter_buckets : List ℕ → List CounterBucket → List ℕ
append_counter_buckets dst buckets = append_counter_buckets_loop dst 0 0 buckets

unfoldable pub append_sketch_buckets_loop : List ℕ → ℕ → List SketchBucket → List ℕ
append_sketch_buckets_loop dst previous [] = dst
append_sketch_buckets_loop dst previous (b ∷ bs) =
    let dst = append_uvarint dst (sub64 b.time previous) in
    let dst = append_uvarint dst (length b.encoded) in
    append_sketch_buckets_loop (dst ++ b.encoded) b.time bs

unfoldable pub append_sketch_buckets : List ℕ → List SketchBucket → List ℕ
append_sketch_buckets dst buckets = append_sketch_buckets_loop dst 0 buckets

-- Four columns of `n` entries each, and the reader's verdict on them.
pub record SampleColumns : Type 0 where
  pub time : List ℕ
  pub values : List Float64
  pub clock : List ℕ
  pub replica : List ℕ

unfoldable pub sample_columns : ℕ → ReaderM SampleColumns
sample_columns n = do
  time ← delta n
  values ← float_xor n
  clock ← delta n
  replica ← delta n
  pure (record { time = time; values = values; clock = clock; replica = replica })

unfoldable pub decode_sample_raw : List ℕ → ℕ → SampleColumns × Option Error
unfolding sample_columns
decode_sample_raw raw n = let (columns, r) = sample_columns n (ready raw) in (columns, done r)

-- The first two columns alone, as the reads of samples.go and sketches.go want them.
unfoldable pub decode_sample_values : List ℕ → ℕ → (List ℕ × List Float64) × Option Error
decode_sample_values raw n =
    let (time, r) = delta n (ready raw) in
    let (values, r') = float_xor n r in ((time, values), r'.err)

pub record CounterColumns : Type 0 where
  pub time : List ℕ
  pub value : List ℕ
  pub replica : List ℕ
  pub clock : List ℕ

unfoldable pub counter_columns : ℕ → ReaderM CounterColumns
counter_columns n = do
  time ← delta n
  value ← delta n
  replica ← delta n
  clock ← delta n
  pure (record { time = time; value = value; replica = replica; clock = clock })

unfoldable pub decode_counter_raw : List ℕ → ℕ → CounterColumns × Option Error
unfolding counter_columns
decode_counter_raw raw n = let (columns, r) = counter_columns n (ready raw) in (columns, done r)

unfoldable pub decode_counter_values : List ℕ → ℕ → (List ℕ × List ℕ) × Option Error
decode_counter_values raw n =
    let (time, r) = delta n (ready raw) in let (value, r') = delta n r in ((time, value), r'.err)

abbrev pub add_sample_columns : SampleData → SampleColumns → SampleData
add_sample_columns out c = record out {
  time = out.time ++ c.time;
  values = out.values ++ c.values;
  clock = out.clock ++ c.clock;
  replica = out.replica ++ c.replica;
}

-- `out` is filled only where the whole block reads well.
unfoldable pub decode_samples : List ℕ → ℕ → SampleData → SampleData × Option Error
decode_samples raw n out =
    let (columns, verdict) = decode_sample_raw raw n in
    elim verdict [ some e ↦ (out, some e) | none ↦ (add_sample_columns out columns, none) ]

unfoldable pub decode_counters : List ℕ → ℕ → CounterData → CounterData × Option Error
decode_counters raw n out =
    let (c, verdict) = decode_counter_raw raw n in
    elim verdict [
      | some e ↦ (out, some e)
      | none ↦ (
        record out {
          time = out.time ++ c.time;
          replica = out.replica ++ c.replica;
          clock = out.clock ++ c.clock;
          value = out.value ++ c.value;
        },
        none,
      )
    ]

-- Some value is NaN or infinite.
unfoldable pub any_not_finite : List Float64 → Bool
any_not_finite [] = false
any_not_finite (v ∷ vs) = (is_nan v || is_inf v) || any_not_finite vs

abbrev pub add_sketch_columns : SketchData → SampleColumns → SketchData
add_sketch_columns out c = record out {
  time = out.time ++ c.time;
  values = out.values ++ c.values;
  clock = out.clock ++ c.clock;
  replica = out.replica ++ c.replica;
}

unfoldable pub decode_sketches : List ℕ → ℕ → SketchData → SketchData × Option Error
decode_sketches raw n out =
    let (columns, verdict) = decode_sample_raw raw n in
    elim verdict [
      | some e ↦ (out, some e)
      | none ↦ elim (any_not_finite columns.values) [
        | true ↦ (out, some shape_codec)
        | false ↦ (add_sketch_columns out columns, none)
      ]
    ]

-- One bucket more on each round, also after the reader has failed.
unfoldable pub decode_sample_buckets_loop : ℕ → BucketDelta → ReaderM (List SampleBucket)
decode_sample_buckets_loop zero prev = pure []
decode_sample_buckets_loop (suc n) prev = do
  d ← uvarint
  let time = u64 (prev.time + d)
  d ← uvarint
  let count = u64 (prev.count + d)
  d ← uvarint
  let sum = bit_xor prev.sum d
  d ← uvarint
  let min = bit_xor prev.min d
  d ← uvarint
  let max = bit_xor prev.max d
  d ← uvarint
  let first = bit_xor prev.first d
  d ← uvarint
  let last = bit_xor prev.last d
  rest ← decode_sample_buckets_loop n (record {
    time = time;
    count = count;
    sum = sum;
    min = min;
    max = max;
    first = first;
    last = last;
  })
  pure (
      record {
        time = time;
        count = count;
        sum = float_of_reversed sum;
        min = float_of_reversed min;
        max = float_of_reversed max;
        first = float_of_reversed first;
        last = float_of_reversed last;
      }
      ∷ rest)

unfoldable pub decode_sample_buckets : List ℕ → ℕ → SampleData → SampleData × Option Error
decode_sample_buckets raw n out =
    let (buckets, r) = decode_sample_buckets_loop n no_delta (ready raw) in
    (record out { buckets = out.buckets ++ buckets }, done r)

unfoldable pub decode_counter_buckets_loop : ℕ → ℕ → ℕ → ReaderM (List CounterBucket)
decode_counter_buckets_loop zero prev_time prev_sum = pure []
decode_counter_buckets_loop (suc n) prev_time prev_sum = do
  d ← uvarint
  let time = u64 (prev_time + d)
  e ← uvarint
  let sum = u64 (prev_sum + e)
  rest ← decode_counter_buckets_loop n time sum
  pure (record { time = time; sum = sum } ∷ rest)

unfoldable pub decode_counter_buckets : List ℕ → ℕ → CounterData → CounterData × Option Error
decode_counter_buckets raw n out =
    let (buckets, r) = decode_counter_buckets_loop n 0 0 (ready raw) in
    (record out { buckets = out.buckets ++ buckets }, done r)

-- The time and the bytes of the next bucket.
unfoldable pub sketch_entry : ℕ → ReaderM (ℕ × List ℕ)
sketch_entry previous = do
  d ← uvarint
  let time = u64 (previous + d)
  size ← count
  block ← bytes size
  pure (time, block)

-- `yield` works on the state `s` that the closure of the caller captures.
module _ {ℓ} {S : Type ℓ} (yield : ℕ → List ℕ → S → S × Option Error) where
  unfoldable pub scan_sketch_buckets_loop : ℕ → ℕ → Reader → S → S × Option Error
  scan_sketch_buckets_loop zero previous r s = (s, done r)
  scan_sketch_buckets_loop (suc n) previous r s =
      let (entry, r) = sketch_entry previous r in
      let (time, block) = entry in
      elim r.err [
        | some e ↦ (s, some e)
        | none ↦
            let (s', verdict) = yield time block s in
            elim verdict [ some e ↦ (s', some e) | none ↦ scan_sketch_buckets_loop n time r s' ]
      ]

  unfoldable pub scan_sketch_buckets : List ℕ → ℕ → S → S × Option Error
  scan_sketch_buckets raw n s = scan_sketch_buckets_loop n 0 (ready raw) s

abbrev pub keep_bucket : ℕ → List ℕ → SketchData → SketchData × Option Error
keep_bucket t block out =
    (record out { buckets = out.buckets ++ (record { time = t; encoded = block } ∷ []) }, none)

unfoldable pub decode_sketch_buckets : List ℕ → ℕ → SketchData → SketchData × Option Error
decode_sketch_buckets raw n out = scan_sketch_buckets keep_bucket raw n out
