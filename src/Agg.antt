-- ===== src/Agg.antt =====
-- The aggregations of agg.go: `fold` collects values and buckets, `Value` reads it.
pub mod Laws
use trend.Prelude.{ℕ, ◌+◌, ◌%◌, ◌^◌, ◌==◌, if◌then◌else◌}
use trend.Float.{Float64, Arith, less, zero_float}
use trend.Data.{SampleBucket}

pub data Agg : Type 0 where
  sum : Agg
  count : Agg
  min : Agg
  max : Agg
  mean : Agg
  first : Agg
  last : Agg

pub record Fold : Type 0 where
  pub count : ℕ
  pub sum : Float64
  pub min : Float64
  pub max : Float64
  pub first : Float64
  pub last : Float64

abbrev pub empty_fold : Fold
empty_fold = record {
  count = 0;
  sum = zero_float;
  min = zero_float;
  max = zero_float;
  first = zero_float;
  last = zero_float;
}

module _ (fp : Arith) where
  unfoldable pub add : Fold → Float64 → Fold
  add f v =
      let f = if f.count == 0 then record f { min = v; max = v; first = v } else f in
      record f {
        count = (f.count + 1) % 2 ^ 64;
        sum = fp.add f.sum v;
        min = if less v f.min then v else f.min;
        max = if less f.max v then v else f.max;
        last = v;
      }

  unfoldable pub merge : Fold → SampleBucket → Fold
  merge f b =
      if b.count == 0
      then f
      else (let f =
            if f.count == 0 then record f { min = b.min; max = b.max; first = b.first } else f in
          record f {
            count = (f.count + b.count) % 2 ^ 64;
            sum = fp.add f.sum b.sum;
            min = if less b.min f.min then b.min else f.min;
            max = if less f.max b.max then b.max else f.max;
            last = b.last;
          })

  unfoldable pub value : Fold → Agg → Float64
  value f count = fp.of_uint64 f.count
  value f min = f.min
  value f max = f.max
  value f mean = if f.count == 0 then zero_float else fp.div f.sum (fp.of_uint64 f.count)
  value f first = f.first
  value f last = f.last
  value f sum = f.sum
