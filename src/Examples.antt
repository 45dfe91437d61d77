-- ===== src/Examples.antt =====
-- The theorems at concrete states: a small series with every kind of segment, replicas that
-- disagree, and reads that stop.
mod States
mod Stores
mod Buffers
mod Distributions
mod Databases
use trend.Prelude.{ℕ, ◌+◌, ◌≡◌, refl, arith, min, true}
use trend.Prelude.{none, some, List, [], ◌∷◌, ◌++◌}
use trend.Float.{Float64, is_nan, is_inf}
use trend.Data.{Pending, SampleBucket}
use trend.Codec.Segment.{Compressor, IsLossless, scan_loop}
use trend.Codec.Reader.{ready, uvarint, delta, float_xor}
use trend.Codec.Writer.{append_uvarint, append_delta, append_float_xor}
use trend.Codec.Block.{any_not_finite}
use trend.Codec.Series.{ok, append_to, pending, valid_pending}
use trend.Codec.Shape.{valid_pending-pending}
use trend.Codec.RoundTrip.{IsStorable, concat, pending-append_to}
use trend.Codec.Extend.{pending-append_to_series}
use trend.Codec.Shrink.{scan_loop_fuel}
use trend.Codec.Varint.{uvarint-append_uvarint}
use trend.Codec.Columns.{delta-append_delta, float_xor-append_float_xor}

-- A compressor that copies.
abbrev pub copy : Compressor
copy = record { encode = λ raw. raw; decode = λ raw. some raw }

pub copy-IsLossless : IsLossless copy
copy-IsLossless = record {
  decode-encode = λ raw h. refl;
  encode-length = λ raw h. omega (arith, h);
}

-- 1.0, 2.0 and 3.0.
abbrev pub one : Float64
one = record { bits = 0x3ff0_0000_0000_0000 }

abbrev pub two : Float64
two = record { bits = 0x4000_0000_0000_0000 }

abbrev pub three : Float64
three = record { bits = 0x4008_0000_0000_0000 }

abbrev pub packed_bucket : SampleBucket
packed_bucket = record {
  time = 0;
  count = 2;
  sum = three;
  min = one;
  max = two;
  first = two;
  last = one;
}

abbrev pub mixed : Pending
mixed = record {
  samples = record {
    time = 7 ∷ 9 ∷ [];
    values = one ∷ three ∷ [];
    clock = 4 ∷ 2 ∷ [];
    replica = 1 ∷ 2 ∷ [];
    buckets = packed_bucket ∷ [];
  };
  counters = record {
    time = 7 ∷ 7 ∷ [];
    replica = 1 ∷ 2 ∷ [];
    clock = 5 ∷ 3 ∷ [];
    value = 10 ∷ 300 ∷ [];
    buckets = record { time = 2; sum = 9 } ∷ [];
  };
  sketches = record {
    time = 8 ∷ [];
    values = two ∷ [];
    clock = 6 ∷ [];
    replica = 1 ∷ [];
    buckets = record { time = 3; encoded = 1 ∷ 2 ∷ [] } ∷ [];
  };
}

mixed-IsStorable : IsStorable mixed
unfolding any_not_finite is_nan is_inf
mixed-IsStorable = record {
  sample_rows = record {
    time_length = refl;
    values_length = refl;
    clock_length = refl;
    replica_length = refl;
    time_fits = (omega arith, (omega arith, tt));
    values_fit = (omega arith, (omega arith, tt));
    clock_fits = (omega arith, (omega arith, tt));
    replica_fits = (omega arith, (omega arith, tt));
  };
  sample_order = ((omega arith, tt), (tt, tt));
  sample_buckets = (
    record {
      time_fits = omega arith;
      count_fits = omega arith;
      sum_fits = omega arith;
      min_fits = omega arith;
      max_fits = omega arith;
      first_fits = omega arith;
      last_fits = omega arith;
    },
    tt,
  );
  sample_bucket_order = (tt, tt);
  counter_rows = record {
    time_length = refl;
    replica_length = refl;
    clock_length = refl;
    value_length = refl;
    time_fits = (omega arith, (omega arith, tt));
    replica_fits = (omega arith, (omega arith, tt));
    clock_fits = (omega arith, (omega arith, tt));
    value_fits = (omega arith, (omega arith, tt));
  };
  counter_order = ((omega arith, tt), (tt, tt));
  counter_buckets = (record { time_fits = omega arith; sum_fits = omega arith }, tt);
  counter_bucket_order = (tt, tt);
  sketch_rows = record {
    time_length = refl;
    values_length = refl;
    clock_length = refl;
    replica_length = refl;
    time_fits = (omega arith, tt);
    values_fit = (omega arith, tt);
    clock_fits = (omega arith, tt);
    replica_fits = (omega arith, tt);
  };
  sketch_order = (tt, tt);
  sketch_finite = refl;
  sketch_buckets = (record { time_fits = omega arith; encoded_fits = omega arith }, tt);
  sketch_bucket_order = (tt, tt);
}

pending-append_to_example :
    (bs : List ℕ) × (append_to copy mixed [] ≡ ok bs) × (pending copy bs ≡ ok mixed)
pending-append_to_example = pending-append_to copy copy-IsLossless mixed mixed-IsStorable

-- The bytes of `mixed`, to which it is appended again.
abbrev stored : List ℕ
stored = (pending-append_to copy copy-IsLossless mixed mixed-IsStorable).0

pending-append_to_series_example :
    (bs : List ℕ) × (append_to copy mixed stored ≡ ok bs)
    × (pending copy bs ≡ ok (concat mixed mixed))
pending-append_to_series_example =
    pending-append_to_series copy copy-IsLossless mixed mixed-IsStorable stored mixed
      (pending-append_to copy copy-IsLossless mixed mixed-IsStorable).2

valid_pending-pending_example : valid_pending mixed ≡ none
valid_pending-pending_example =
    valid_pending-pending copy stored mixed
      (pending-append_to copy copy-IsLossless mixed mixed-IsStorable).2

scan_loop_fuel_example :
    scan_loop {S = ℕ} (λ seg n. (n + seg.count, true)) 3 (ready (1 ∷ 2 ∷ 3 ∷ [])) 0
    ≡ scan_loop {S = ℕ} (λ seg n. (n + seg.count, true)) 8 (ready (1 ∷ 2 ∷ 3 ∷ [])) 0
scan_loop_fuel_example =
    scan_loop_fuel {S = ℕ} (λ seg n. (n + seg.count, true)) 3 8 (ready (1 ∷ 2 ∷ 3 ∷ [])) 0
      (omega arith) (omega arith)

uvarint-append_uvarint_example :
    uvarint (ready (append_uvarint [] 18446744073709551615 ++ (5 ∷ [])))
    ≡ (18446744073709551615, ready (5 ∷ []))
uvarint-append_uvarint_example = uvarint-append_uvarint 18446744073709551615 (5 ∷ []) (omega arith)

delta-append_delta_example :
    delta 3 (ready (append_delta [] (9 ∷ 4 ∷ 700 ∷ []) ++ (5 ∷ [])))
    ≡ (9 ∷ 4 ∷ 700 ∷ [], ready (5 ∷ []))
delta-append_delta_example =
    delta-append_delta (9 ∷ 4 ∷ 700 ∷ []) (5 ∷ []) (omega arith, (omega arith, (omega arith, tt)))

float_xor-append_float_xor_example :
    float_xor 2 (ready (append_float_xor [] (two ∷ three ∷ []) ++ (5 ∷ [])))
    ≡ (two ∷ three ∷ [], ready (5 ∷ []))
float_xor-append_float_xor_example =
    float_xor-append_float_xor (two ∷ three ∷ []) (5 ∷ []) (omega arith, (omega arith, tt))
