-- ===== src/Codec/Buckets.antt =====
-- The sample and counter bucket blocks of block.go, written and read.
use Prim.Native.Nat.{bit_xor}
use trend.Prelude.{ℕ, ◌*◌, ◌≤◌, ◌≡◌, refl, sym, ◌∙◌, arith}
use trend.Prelude.{List, [], ◌∷◌, ◌++◌, append-nil, append_assoc, length, length-append, All}
use trend.Prelude.Bits.{bit_xor_cancel, bit_xor-lt}
use trend.Float.{Float64, IsFloat}
use trend.Data.{SampleBucket, CounterBucket, IsU64}
use trend.Codec.Reader.{ready, uvarint}
use trend.Codec.Writer.{sub64, append_float}
use trend.Codec.Varint.{varint, append_uvarint-varint, uvarint-Reads, Reads, length-varint}
use trend.Codec.Columns.{sub64-lt, add_sub64, reversed, reversed-lt, float_of_reversed-reversed}
use trend.Codec.Block.{
  BucketDelta, no_delta, append_sample_buckets_loop, append_sample_buckets,
  append_counter_buckets_loop, append_counter_buckets, decode_sample_buckets_loop,
  decode_counter_buckets_loop,
}

pub record IsSampleBucket (b : SampleBucket) : Type 0 where
  pub time_fits : IsU64 b.time
  pub count_fits : IsU64 b.count
  pub sum_fits : IsFloat b.sum
  pub min_fits : IsFloat b.min
  pub max_fits : IsFloat b.max
  pub first_fits : IsFloat b.first
  pub last_fits : IsFloat b.last

record IsDelta (d : BucketDelta) : Type 0 where
  time_fits : IsU64 d.time
  count_fits : IsU64 d.count
  sum_fits : IsU64 d.sum
  min_fits : IsU64 d.min
  max_fits : IsU64 d.max
  first_fits : IsU64 d.first
  last_fits : IsU64 d.last

-- What is carried on after a bucket.
abbrev delta_of : SampleBucket → BucketDelta
delta_of b = record {
  time = b.time;
  count = b.count;
  sum = reversed b.sum;
  min = reversed b.min;
  max = reversed b.max;
  first = reversed b.first;
  last = reversed b.last;
}

delta_of-IsDelta : (b : SampleBucket) → IsSampleBucket b → IsDelta (delta_of b)
delta_of-IsDelta b v = record {
  time_fits = v.time_fits;
  count_fits = v.count_fits;
  sum_fits = reversed-lt b.sum;
  min_fits = reversed-lt b.min;
  max_fits = reversed-lt b.max;
  first_fits = reversed-lt b.first;
  last_fits = reversed-lt b.last;
}

abbrev xor_bytes : ℕ → Float64 → List ℕ
xor_bytes prev v = varint (bit_xor (reversed v) prev)

-- The bytes of a bucket after `prev`, in front of `tail`.
abbrev bucket_bytes : BucketDelta → SampleBucket → List ℕ → List ℕ
bucket_bytes prev b tail =
    varint (sub64 b.time prev.time)
    ++ (varint (sub64 b.count prev.count)
        ++ (xor_bytes prev.sum b.sum
            ++ (xor_bytes prev.min b.min
                ++ (xor_bytes prev.max b.max
                    ++ (xor_bytes prev.first b.first ++ (xor_bytes prev.last b.last ++ tail))))))

unfoldable pub sample_bucket_bytes : BucketDelta → List SampleBucket → List ℕ
sample_bucket_bytes prev [] = []
sample_bucket_bytes prev (b ∷ bs) = bucket_bytes prev b (sample_bucket_bytes (delta_of b) bs)

append_sample_buckets_loop-bytes :
    (prev : BucketDelta) (bs : List SampleBucket) (dst : List ℕ)
    → append_sample_buckets_loop dst prev bs ≡ dst ++ sample_bucket_bytes prev bs
unfolding append_sample_buckets_loop append_float sample_bucket_bytes
append_sample_buckets_loop-bytes prev [] dst = sym (append-nil dst)
append_sample_buckets_loop-bytes prev (b ∷ bs) dst =
    append_sample_buckets_loop-bytes (delta_of b) bs _ ∙ simp (append_uvarint-varint, append_assoc)

pub append_sample_buckets-bytes :
    (dst : List ℕ) (bs : List SampleBucket)
    → append_sample_buckets dst bs ≡ dst ++ sample_bucket_bytes no_delta bs
unfolding append_sample_buckets
append_sample_buckets-bytes dst bs = append_sample_buckets_loop-bytes no_delta bs dst

read_sub64 :
    (a b : ℕ) (bs : List ℕ) → uvarint (ready (varint (sub64 a b) ++ bs)) ≡ (sub64 a b, ready bs)
read_sub64 a b bs = uvarint-Reads (sub64 a b) (sub64-lt a b) bs

read_xor :
    (prev : ℕ) (v : Float64) (bs : List ℕ)
    → IsU64 prev
    → uvarint (ready (xor_bytes prev v ++ bs)) ≡ (bit_xor (reversed v) prev, ready bs)
read_xor prev v bs h =
    uvarint-Reads (bit_xor (reversed v) prev) (bit_xor-lt 64 (reversed v) prev (reversed-lt v) h) bs

decode_sample_buckets_loop-Reads :
    (prev : BucketDelta) (bs : List SampleBucket)
    → IsDelta prev
    → All IsSampleBucket bs
    → Reads (decode_sample_buckets_loop (length bs) prev) (sample_bucket_bytes prev bs) bs
unfolding decode_sample_buckets_loop sample_bucket_bytes
decode_sample_buckets_loop-Reads prev [] p h rest = refl
decode_sample_buckets_loop-Reads prev (b ∷ bs) p (v, h) rest = simp (
  append_assoc,
  read_sub64,
  read_xor,
  p.sum_fits,
  p.min_fits,
  p.max_fits,
  p.first_fits,
  p.last_fits,
  bit_xor_cancel,
  add_sub64 b.time prev.time v.time_fits p.time_fits,
  add_sub64 b.count prev.count v.count_fits p.count_fits,
  decode_sample_buckets_loop-Reads (delta_of b) bs (delta_of-IsDelta b v) h rest,
  float_of_reversed-reversed b.sum v.sum_fits,
  float_of_reversed-reversed b.min v.min_fits,
  float_of_reversed-reversed b.max v.max_fits,
  float_of_reversed-reversed b.first v.first_fits,
  float_of_reversed-reversed b.last v.last_fits,
)

no_delta-IsDelta : IsDelta no_delta
no_delta-IsDelta = omega arith

pub decode_sample_buckets-Reads :
    (bs : List SampleBucket)
    → All IsSampleBucket bs
    → Reads (decode_sample_buckets_loop (length bs) no_delta) (sample_bucket_bytes no_delta bs) bs
decode_sample_buckets-Reads bs h = decode_sample_buckets_loop-Reads no_delta bs no_delta-IsDelta h

pub length-sample_bucket_bytes :
    (prev : BucketDelta) (bs : List SampleBucket)
    → length (sample_bucket_bytes prev bs) ≤ 70 * length bs
unfolding sample_bucket_bytes
length-sample_bucket_bytes prev [] = omega arith
length-sample_bucket_bytes prev (b ∷ bs) =
    simp length-append (omega (arith, length-varint, length-sample_bucket_bytes (delta_of b) bs))

pub record IsCounterBucket (b : CounterBucket) : Type 0 where
  pub time_fits : IsU64 b.time
  pub sum_fits : IsU64 b.sum

unfoldable pub counter_bucket_bytes : ℕ → ℕ → List CounterBucket → List ℕ
counter_bucket_bytes prev_time prev_sum [] = []
counter_bucket_bytes prev_time prev_sum (b ∷ bs) =
    varint (sub64 b.time prev_time)
    ++ (varint (sub64 b.sum prev_sum) ++ counter_bucket_bytes b.time b.sum bs)

append_counter_buckets_loop-bytes :
    (prev_time prev_sum : ℕ) (bs : List CounterBucket) (dst : List ℕ)
    → append_counter_buckets_loop dst prev_time prev_sum bs
      ≡ dst ++ counter_bucket_bytes prev_time prev_sum bs
unfolding append_counter_buckets_loop counter_bucket_bytes
append_counter_buckets_loop-bytes prev_time prev_sum [] dst = sym (append-nil dst)
append_counter_buckets_loop-bytes prev_time prev_sum (b ∷ bs) dst =
    append_counter_buckets_loop-bytes b.time b.sum bs _ ∙ simp (append_uvarint-varint, append_assoc)

pub append_counter_buckets-bytes :
    (dst : List ℕ) (bs : List CounterBucket)
    → append_counter_buckets dst bs ≡ dst ++ counter_bucket_bytes 0 0 bs
unfolding append_counter_buckets
append_counter_buckets-bytes dst bs = append_counter_buckets_loop-bytes 0 0 bs dst

decode_counter_buckets_loop-Reads :
    (prev_time prev_sum : ℕ) (bs : List CounterBucket)
    → IsU64 prev_time
    → IsU64 prev_sum
    → All IsCounterBucket bs
    → Reads
        (decode_counter_buckets_loop (length bs) prev_time prev_sum)
        (counter_bucket_bytes prev_time prev_sum bs)
        bs
unfolding decode_counter_buckets_loop counter_bucket_bytes
decode_counter_buckets_loop-Reads prev_time prev_sum [] p q h rest = refl
decode_counter_buckets_loop-Reads prev_time prev_sum (b ∷ bs) p q (v, h) rest = simp (
  append_assoc,
  read_sub64,
  add_sub64 b.time prev_time v.time_fits p,
  add_sub64 b.sum prev_sum v.sum_fits q,
  decode_counter_buckets_loop-Reads b.time b.sum bs v.time_fits v.sum_fits h rest,
)

pub decode_counter_buckets-Reads :
    (bs : List CounterBucket)
    → All IsCounterBucket bs
    → Reads (decode_counter_buckets_loop (length bs) 0 0) (counter_bucket_bytes 0 0 bs) bs
decode_counter_buckets-Reads bs h =
    decode_counter_buckets_loop-Reads 0 0 bs (omega arith) (omega arith) h

pub length-counter_bucket_bytes :
    (prev_time prev_sum : ℕ) (bs : List CounterBucket)
    → length (counter_bucket_bytes prev_time prev_sum bs) ≤ 20 * length bs
unfolding counter_bucket_bytes
length-counter_bucket_bytes prev_time prev_sum [] = omega arith
length-counter_bucket_bytes prev_time prev_sum (b ∷ bs) =
    simp length-append (omega (arith, length-varint, length-counter_bucket_bytes b.time b.sum bs))
