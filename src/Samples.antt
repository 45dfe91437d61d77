-- ===== src/Samples.antt =====
-- Sample series: sampleData of series.go and its methods in sample_state.go.
pub mod Merge
pub mod Laws
pub mod Compact
pub mod Kept
pub mod Appendable
use trend.Prelude.{ℕ, ◌+◌, ◌%◌, ◌^◌, Bool, true, false, ◌&&◌, ◌||◌, none, some}
use trend.Prelude.{List, [], ◌∷◌, ◌++◌, foldl, length, ltb, leb, ◌==◌, if◌then◌else◌}
use trend.Float.{Float64, Arith, less, zero_float}
use trend.Data.{SampleData, SampleBucket}
use trend.Times.{strictly_increasing, min_step, bucket_of}
use trend.Maps.{lookup, insert, get_or, sorted_times}

pub record SamplePoint : Type 0 where
  pub value : Float64
  pub clock : ℕ
  pub replica : ℕ

abbrev pub zero_point : SamplePoint
zero_point = record { value = zero_float; clock = 0; replica = 0 }

unfoldable pub add : SampleData → ℕ → Float64 → ℕ → ℕ → SampleData
add d t value clock replica = record d {
  time = d.time ++ (t ∷ []);
  values = d.values ++ (value ∷ []);
  clock = d.clock ++ (clock ∷ []);
  replica = d.replica ++ (replica ∷ []);
}

unfoldable pub reset : SampleData → SampleData
reset d = record { time = []; values = []; clock = []; replica = []; buckets = [] }

unfoldable pub count : SampleData → ℕ
count d = length d.time + length d.buckets

unfoldable pub sample_buckets_increasing : List SampleBucket → Bool
sample_buckets_increasing [] = true
sample_buckets_increasing (x ∷ xs) =
    elim xs [ [] ↦ true | y ∷ _ ↦ ltb x.time y.time ] && sample_buckets_increasing xs

unfoldable pub appendable : SampleData → Bool
unfolding strictly_increasing sample_buckets_increasing
appendable d = strictly_increasing d.time && sample_buckets_increasing d.buckets

unfoldable pub min_time : SampleData → ℕ × Bool
min_time d =
    foldl (λ s (b : SampleBucket). min_step s b.time) (foldl min_step (0, false) d.time) d.buckets

-- The columns side by side: `d.Time[i]` with `samplePoint{d.Data[i], d.Clock[i], d.Replica[i]}`.
-- All columns have one length wherever `Merge` runs (`valid` is called before, and a decoded or
-- buffered state has it).
unfoldable pub rows_of : List ℕ → List Float64 → List ℕ → List ℕ → List (ℕ × SamplePoint)
rows_of (t ∷ ts) (v ∷ vs) (c ∷ cs) (r ∷ rs) =
    (t, record { value = v; clock = c; replica = r }) ∷ rows_of ts vs cs rs
rows_of _ _ _ _ = []

unfoldable pub rows : SampleData → List (ℕ × SamplePoint)
unfolding rows_of
rows d = rows_of d.time d.values d.clock d.replica

unfoldable pub newer_sample : SamplePoint → SamplePoint → Bool
newer_sample a b = ltb b.clock a.clock || a.clock == b.clock && ltb b.replica a.replica

-- One round of each of the first two loops of `Merge`.
abbrev pub put_point : List (ℕ × SamplePoint) → ℕ × SamplePoint → List (ℕ × SamplePoint)
put_point points (t, p) = insert t p points

unfoldable pub merge_point : List (ℕ × SamplePoint) → ℕ × SamplePoint → List (ℕ × SamplePoint)
merge_point points (t, next) = elim (lookup t points) [
  | none ↦ insert t next points
  | some old ↦ if newer_sample next old then insert t next points else points
]

unfoldable pub points_of : SampleData → SampleData → List (ℕ × SamplePoint)
points_of d delta = foldl merge_point (foldl put_point [] (rows d)) (rows delta)

unfoldable pub add_points : SampleData → List (ℕ × SamplePoint) → List ℕ → SampleData
add_points d points times =
    foldl (λ e t. (let p = get_or points t zero_point in add e t p.value p.clock p.replica)) d times

abbrev pub zero_bucket : SampleBucket
zero_bucket = record {
  time = 0;
  count = 0;
  sum = zero_float;
  min = zero_float;
  max = zero_float;
  first = zero_float;
  last = zero_float;
}

module _ (fp : Arith) where
  unfoldable pub combine_sample_bucket : SampleBucket → SampleBucket → SampleBucket
  combine_sample_bucket a b = if a.count == 0 then b else if b.count == 0 then a else record a {
    count = (a.count + b.count) % 2 ^ 64;
    sum = fp.add a.sum b.sum;
    min = if less b.min a.min then b.min else a.min;
    max = if less a.max b.max then b.max else a.max;
    last = b.last;
  }

  unfoldable pub merge_bucket : List (ℕ × SampleBucket) → SampleBucket → List (ℕ × SampleBucket)
  merge_bucket buckets x = elim (lookup x.time buckets) [
    | none ↦ insert x.time x buckets
    | some old ↦ insert x.time (combine_sample_bucket old x) buckets
  ]

  unfoldable pub merge_sample_buckets : List SampleBucket → List SampleBucket → List SampleBucket
  merge_sample_buckets a b =
      let buckets = foldl merge_bucket (foldl (λ m x. insert x.time x m) [] a) b in
      foldl (λ out t. out ++ (get_or buckets t zero_bucket ∷ [])) [] (sorted_times buckets)

  unfoldable pub merge : SampleData → SampleData → SampleData
  merge d delta =
      let points = points_of d delta in
      let cleared = record d { time = []; values = []; clock = []; replica = [] } in
      let merged = add_points cleared points (sorted_times points) in
      record merged { buckets = merge_sample_buckets d.buckets delta.buckets }

  -- What `Compact` does to a bucket with a value that leaves the raw columns.
  unfoldable pub pack : ℕ → Float64 → SampleBucket → SampleBucket
  pack time v b =
      let b = if b.count == 0 then record b { time = time; min = v; max = v; first = v } else b in
      record b {
        count = (b.count + 1) % 2 ^ 64;
        sum = fp.add b.sum v;
        min = if less v b.min then v else b.min;
        max = if less b.max v then v else b.max;
        last = v;
      }

  -- A round of `Compact` on the columns kept so far and the buckets.
  unfoldable pub compact_row :
      ℕ
      → ℕ
      → SampleData × List (ℕ × SampleBucket)
      → ℕ × SamplePoint
      → SampleData × List (ℕ × SampleBucket)
  compact_row cutoff span (kept, buckets) (t, p) =
      if leb cutoff t
      then (add kept t p.value p.clock p.replica, buckets)
      else (let time = bucket_of t span in
          (kept, insert time (pack time p.value (get_or buckets time zero_bucket)) buckets))

  unfoldable pub compact : SampleData → ℕ → ℕ → SampleData
  compact d cutoff span =
      if length d.time == 0
      then d
      else (let none_kept : SampleData = record {
        time = [];
        values = [];
        clock = [];
        replica = [];
        buckets = [];
      } in
          let old = foldl (λ m (b : SampleBucket). insert b.time b m) [] d.buckets in
          let (kept, buckets) = foldl (compact_row cutoff span) (none_kept, old) (rows d) in
          record kept {
            buckets =
                foldl (λ out t. out ++ (get_or buckets t zero_bucket ∷ [])) []
                  (sorted_times buckets);
          })
