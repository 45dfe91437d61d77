-- ===== src/Codec/Bodies.antt =====
-- The bodies of the six kinds of segments in block.go, encoded and decoded.
use trend.Prelude.{ℕ, ◌*◌, ◌≤◌, ◌≡◌, ap, arith, false}
use trend.Prelude.{none}
use trend.Prelude.{List, [], ◌++◌, append-nil, append_assoc, length, length-append, All}
use trend.Float.{Float64, IsFloat}
use trend.Data.{SampleBucket, CounterBucket, SampleData, CounterData, SketchData, IsU64}
use trend.Codec.Reader.{done}
use trend.Codec.Varint.{Reads}
use trend.Codec.Columns.{
  deltas, xors, append_delta-deltas, append_float_xor-xors, delta-Reads, float_xor-Reads,
  length-deltas, length-xors,
}
use trend.Codec.Buckets.{
  IsSampleBucket, IsCounterBucket, sample_bucket_bytes, counter_bucket_bytes,
  decode_sample_buckets-Reads, decode_counter_buckets-Reads,
}
use trend.Codec.Block.{
  no_delta, append_sample_raw, append_counter_raw, sample_columns, counter_columns,
  decode_sample_raw, decode_counter_raw, decode_samples, decode_counters, decode_sketches,
  any_not_finite, decode_sample_buckets, decode_counter_buckets,
}

-- Columns of one length `n` that fit their types.
pub record IsSampleRows (n : ℕ) (time : List ℕ) (values : List Float64) (clock replica : List ℕ)
    : Type 0 where
  pub time_length : length time ≡ n
  pub values_length : length values ≡ n
  pub clock_length : length clock ≡ n
  pub replica_length : length replica ≡ n
  pub time_fits : All IsU64 time
  pub values_fit : All IsFloat values
  pub clock_fits : All IsU64 clock
  pub replica_fits : All IsU64 replica

pub record IsCounterRows (n : ℕ) (time replica clock value : List ℕ) : Type 0 where
  pub time_length : length time ≡ n
  pub replica_length : length replica ≡ n
  pub clock_length : length clock ≡ n
  pub value_length : length value ≡ n
  pub time_fits : All IsU64 time
  pub replica_fits : All IsU64 replica
  pub clock_fits : All IsU64 clock
  pub value_fits : All IsU64 value

module _ (n : ℕ) (time : List ℕ) (values : List Float64) (clock replica : List ℕ) where
  unfoldable pub sample_body : List ℕ
  sample_body = deltas 0 time ++ (xors 0 values ++ (deltas 0 clock ++ deltas 0 replica))

  pub append_sample_raw-body : append_sample_raw [] time values clock replica ≡ sample_body
  unfolding append_sample_raw sample_body
  append_sample_raw-body = simp (append_delta-deltas, append_float_xor-xors, append_assoc)

  module _ (v : IsSampleRows n time values clock replica) where
    pub sample_body-fits : length sample_body ≤ 40 * n
    unfolding sample_body
    sample_body-fits = simp length-append (
        omega (
          arith,
          length-deltas 0 time,
          length-xors 0 values,
          length-deltas 0 clock,
          length-deltas 0 replica,
          v.time_length,
          v.values_length,
          v.clock_length,
          v.replica_length,
        ))

    sample_columns-Reads :
        Reads
          (sample_columns n)
          sample_body
          (record { time = time; values = values; clock = clock; replica = replica })
    unfolding sample_columns sample_body
    sample_columns-Reads rest = simp (
      append_assoc,
      rw v.time_length at (delta-Reads time v.time_fits),
      rw v.values_length at (float_xor-Reads values v.values_fit),
      rw v.clock_length at (delta-Reads clock v.clock_fits),
      rw v.replica_length at (delta-Reads replica v.replica_fits),
    )

    decode_sample_raw-body :
        decode_sample_raw sample_body n
        ≡ (record { time = time; values = values; clock = clock; replica = replica }, none)
    unfolding decode_sample_raw done
    decode_sample_raw-body = ap (λ t. (t.0, done t.1)) (rw append-nil at (sample_columns-Reads []))

    pub decode_samples-body :
        (out : SampleData)
        → decode_samples sample_body n out ≡ (
          record out {
            time = out.time ++ time;
            values = out.values ++ values;
            clock = out.clock ++ clock;
            replica = out.replica ++ replica;
          },
          none,
        )
    unfolding decode_samples
    decode_samples-body out = ground (arith, decode_sample_raw-body)

    pub decode_sketches-body :
        (out : SketchData)
        → any_not_finite values ≡ false
        → decode_sketches sample_body n out ≡ (
          record out {
            time = out.time ++ time;
            values = out.values ++ values;
            clock = out.clock ++ clock;
            replica = out.replica ++ replica;
          },
          none,
        )
    unfolding decode_sketches
    decode_sketches-body out h = ground (arith, decode_sample_raw-body)

module _ (n : ℕ) (time replica clock value : List ℕ) where
  unfoldable pub counter_body : List ℕ
  counter_body = deltas 0 time ++ (deltas 0 value ++ (deltas 0 replica ++ deltas 0 clock))

  pub append_counter_raw-body : append_counter_raw [] time replica clock value ≡ counter_body
  unfolding append_counter_raw counter_body
  append_counter_raw-body = simp (append_delta-deltas, append_assoc)

  module _ (v : IsCounterRows n time replica clock value) where
    pub counter_body-fits : length counter_body ≤ 40 * n
    unfolding counter_body
    counter_body-fits = simp length-append (
        omega (
          arith,
          length-deltas 0 time,
          length-deltas 0 value,
          length-deltas 0 replica,
          length-deltas 0 clock,
          v.time_length,
          v.value_length,
          v.replica_length,
          v.clock_length,
        ))

    counter_columns-Reads :
        Reads
          (counter_columns n)
          counter_body
          (record { time = time; value = value; replica = replica; clock = clock })
    unfolding counter_columns counter_body
    counter_columns-Reads rest = simp (
      append_assoc,
      rw v.time_length at (delta-Reads time v.time_fits),
      rw v.value_length at (delta-Reads value v.value_fits),
      rw v.replica_length at (delta-Reads replica v.replica_fits),
      rw v.clock_length at (delta-Reads clock v.clock_fits),
    )

    decode_counter_raw-body :
        decode_counter_raw counter_body n
        ≡ (record { time = time; value = value; replica = replica; clock = clock }, none)
    unfolding decode_counter_raw done
    decode_counter_raw-body =
        ap (λ t. (t.0, done t.1)) (rw append-nil at (counter_columns-Reads []))

    pub decode_counters-body :
        (out : CounterData)
        → decode_counters counter_body n out ≡ (
          record out {
            time = out.time ++ time;
            replica = out.replica ++ replica;
            clock = out.clock ++ clock;
            value = out.value ++ value;
          },
          none,
        )
    unfolding decode_counters
    decode_counters-body out = ground (arith, decode_counter_raw-body)

pub decode_sample_buckets-body :
    (bs : List SampleBucket) (out : SampleData)
    → All IsSampleBucket bs
    → decode_sample_buckets (sample_bucket_bytes no_delta bs) (length bs) out
      ≡ (record out { buckets = out.buckets ++ bs }, none)
unfolding decode_sample_buckets done
decode_sample_buckets-body bs out h =
    ap (λ t. (record out { buckets = out.buckets ++ t.0 }, done t.1))
      (rw append-nil at (decode_sample_buckets-Reads bs h []))

pub decode_counter_buckets-body :
    (bs : List CounterBucket) (out : CounterData)
    → All IsCounterBucket bs
    → decode_counter_buckets (counter_bucket_bytes 0 0 bs) (length bs) out
      ≡ (record out { buckets = out.buckets ++ bs }, none)
unfolding decode_counter_buckets done
decode_counter_buckets-body bs out h =
    ap (λ t. (record out { buckets = out.buckets ++ t.0 }, done t.1))
      (rw append-nil at (decode_counter_buckets-Reads bs h []))
