-- ===== src/Examples/States.antt =====
-- The theorems on states in memory and on reads, at concrete states.
use trend.Prelude.{
  ℕ, suc, ◌+◌, ◌%◌, ◌^◌, ◌≤◌, ◌≡◌, refl, arith, min, Bool, true, false, ◌⊎◌, inl, inr, length,
}
use trend.Prelude.{List, [], ◌∷◌, map, foldl}
use trend.Float.{Float64, Arith, is_nan}
use trend.Data.{SampleData, CounterData, SampleBucket}
use trend.Maps.{lookup, IsIncreasing}
use trend.Agg.{Fold, Agg, empty_fold, value}
use trend.Agg.Laws.{Piece, raw, packed, IsFoldOf, IsPieces, collect, collect_lem}
use trend.Samples.{rows_of, rows, compact, merge}
use trend.Samples.Merge.{join, IsCanonical, merge-IsCanonical, lookup-merge}
use trend.Samples.Laws.{Agree, merge_idem, merge_comm, merge_assoc}
use trend.Samples.Compact.{fold_at, old_values, recent, fold_at-compact}
use trend.Samples.Kept.{sample_rows-compact}
use trend.Counters.{CounterOp}
use trend.Counters.Merge.{count_row, Reorders, IsRect, merge-IsRect, count_row-merge}
use trend.Counters.Buckets.{sum_at, sum_at-merge}
use trend.Counters.Compact.{old_sum, counter_rows-compact, sum_at-compact}
use trend.Reads.Samples.{sample_values, sample_range}
use trend.Reads.Counters.{counter_values, counter_range}
use trend.Reads.Invariant.{Ends}
use trend.Reads.SampleLaws.{sample_values-keeps}
use trend.Reads.CounterLaws.{counter_values-keeps}
use trend.Reads.Stop.{
  Calls, recording, IsRangeRead, samples_scanned, counters_scanned, range-stopped,
}
use trend.Codec.Series.{ok, err, append_to}
use trend.Examples.{one, two, three, copy, mixed}

-- Integers in place of rounded floats.
abbrev pub plain : Arith
plain = record {
  add = λ a b. record { bits = (a.bits + b.bits) % 2 ^ 64 };
  div = λ a b. a;
  of_uint64 = λ n. record { bits = n };
}

abbrev bucket : SampleBucket
bucket = record { time = 0; count = 2; sum = three; min = one; max = two; first = two; last = one }

-- Two replicas that disagree at time 7, and a third.
abbrev left : SampleData
left = record {
  time = 3 ∷ 7 ∷ [];
  values = one ∷ two ∷ [];
  clock = 1 ∷ 2 ∷ [];
  replica = 1 ∷ 1 ∷ [];
  buckets = bucket ∷ [];
}

abbrev right : SampleData
right = record {
  time = 7 ∷ 8 ∷ [];
  values = three ∷ one ∷ [];
  clock = 2 ∷ 1 ∷ [];
  replica = 2 ∷ 2 ∷ [];
  buckets = [];
}

abbrev third : SampleData
third = record { time = 8 ∷ []; values = two ∷ []; clock = 4 ∷ []; replica = 3 ∷ []; buckets = [] }

left-IsCanonical : IsCanonical left
left-IsCanonical = record {
  values_length = refl;
  clock_length = refl;
  replica_length = refl;
  increasing = ((omega arith, tt), (tt, tt));
}

right-IsCanonical : IsCanonical right
right-IsCanonical = record {
  values_length = refl;
  clock_length = refl;
  replica_length = refl;
  increasing = ((omega arith, tt), (tt, tt));
}

third-IsCanonical : IsCanonical third
third-IsCanonical = record {
  values_length = refl;
  clock_length = refl;
  replica_length = refl;
  increasing = (tt, tt);
}

left_agrees : (t : ℕ) → Agree (lookup t (rows left)) (lookup t (rows right))
unfolding rows rows_of lookup
left_agrees t = ground arith

lookup-merge_example :
    lookup 7 (rows (merge plain left right)) ≡ join (lookup 7 (rows left)) (lookup 7 (rows right))
lookup-merge_example = lookup-merge plain left right 7 left-IsCanonical right-IsCanonical

merge-IsCanonical_example : IsCanonical (merge plain left right)
merge-IsCanonical_example = merge-IsCanonical plain left right

merge_idem_example : trend.Samples.Laws.raw (merge plain left left) ≡ trend.Samples.Laws.raw left
merge_idem_example = merge_idem plain left left-IsCanonical

merge_comm_example :
    trend.Samples.Laws.raw (merge plain left right)
    ≡ trend.Samples.Laws.raw (merge plain right left)
merge_comm_example = merge_comm plain left right left-IsCanonical right-IsCanonical left_agrees

merge_assoc_example :
    trend.Samples.Laws.raw (merge plain (merge plain left right) third)
    ≡ trend.Samples.Laws.raw (merge plain left (merge plain right third))
merge_assoc_example =
    merge_assoc plain left right third left-IsCanonical right-IsCanonical third-IsCanonical

fold_at-compact_example :
    (fold_at 0 (compact plain left 5 5).buckets
      ≡ foldl (trend.Agg.add plain) (fold_at 0 left.buckets) (old_values 5 5 0 (rows left)))
    × (IsIncreasing (map (λ b. b.time) (compact plain left 5 5).buckets)
        ⊎ (length left.time ≡ 0) × (compact plain left 5 5 ≡ left))
fold_at-compact_example = fold_at-compact plain left 5 5 0

sample_rows-compact_example : rows (compact plain left 5 5) ≡ recent 5 (rows left)
sample_rows-compact_example = sample_rows-compact plain 5 5 left

-- Counters: one operation is on both sides.
abbrev counted : CounterData
counted = record {
  time = 4 ∷ 4 ∷ [];
  replica = 1 ∷ 2 ∷ [];
  clock = 1 ∷ 1 ∷ [];
  value = 10 ∷ 20 ∷ [];
  buckets = record { time = 0; sum = 18446744073709551615 } ∷ [];
}

abbrev delivered : CounterData
delivered = record {
  time = 4 ∷ 6 ∷ [];
  replica = 2 ∷ 2 ∷ [];
  clock = 1 ∷ 2 ∷ [];
  value = 20 ∷ 5 ∷ [];
  buckets = record { time = 0; sum = 3 } ∷ [];
}

abbrev keep_order : ℕ → List CounterOp → List CounterOp
keep_order t ops = ops

keep_order-Reorders : Reorders keep_order
keep_order-Reorders t xs op = refl

abbrev shared : CounterOp
shared = record { replica = 2; clock = 1; value = 20 }

count_row-merge_example :
    count_row 4 shared (trend.Counters.rows (trend.Counters.merge keep_order counted delivered))
    ≡ min 1 (
        count_row 4 shared (trend.Counters.rows counted)
        + count_row 4 shared (trend.Counters.rows delivered))
count_row-merge_example = count_row-merge keep_order counted delivered keep_order-Reorders 4 shared

merge-IsRect_example : IsRect (trend.Counters.merge keep_order counted delivered)
merge-IsRect_example = merge-IsRect keep_order counted delivered

sum_at-merge_example :
    (sum_at 0 (trend.Counters.merge_counter_buckets counted.buckets delivered.buckets)
      ≡ (sum_at 0 counted.buckets + sum_at 0 delivered.buckets) % 2 ^ 64)
    × IsIncreasing
        (map (λ b. b.time) (trend.Counters.merge_counter_buckets counted.buckets delivered.buckets))
sum_at-merge_example = sum_at-merge 0 counted.buckets delivered.buckets

counter_rows-compact_example :
    trend.Counters.rows (trend.Counters.compact delivered 5 5)
    ≡ trend.Counters.Compact.recent 5 (trend.Counters.rows delivered)
counter_rows-compact_example = counter_rows-compact delivered 5 5

sum_at-compact_example :
    (sum_at 0 (trend.Counters.compact delivered 5 5).buckets
      ≡ (sum_at 0 delivered.buckets + old_sum 5 5 0 (trend.Counters.rows delivered)) % 2 ^ 64)
    × IsIncreasing (map (λ b. b.time) (trend.Counters.compact delivered 5 5).buckets)
sum_at-compact_example = sum_at-compact delivered 5 5 0

-- A value that comes alone and two that come as a bucket.
abbrev pieces : List Piece
pieces = raw three ∷ packed bucket ∷ []

abbrev piece_values : List (List Float64)
piece_values = (three ∷ []) ∷ (two ∷ one ∷ []) ∷ []

pieces-IsPieces : IsPieces pieces piece_values
unfolding is_nan
pieces-IsPieces = (
  refl,
  refl,
  (
    record {
      counted = refl;
      min_number = refl;
      max_number = refl;
      min_member = inr (inl refl);
      max_member = inl refl;
      lower = (omega arith, (omega arith, tt));
      upper = (omega arith, (omega arith, tt));
      first_of = refl;
      last_of = refl;
    },
    tt,
  ),
)

collect_lem_example : IsFoldOf (three ∷ two ∷ one ∷ []) (foldl (collect plain) empty_fold pieces)
collect_lem_example = collect_lem plain pieces piece_values pieces-IsPieces (omega arith)

-- A reader that counts its calls and stops at the first.
abbrev stop_at_once : ℕ → Float64 → ℕ → ℕ × Bool
stop_at_once t v calls = (suc calls, false)

-- No call while the read goes on, and one when it is over.
abbrev IsStopped : ℕ → Bool → Type 0
IsStopped calls true = calls ≡ 0
IsStopped calls false = calls ≡ 1

stop_at_once-IsStopped :
    (t : ℕ) (v : Float64) (calls : ℕ)
    → 5 ≤ t
    → t ≤ 9
    → IsStopped calls true
    → IsStopped (stop_at_once t v calls).0 (stop_at_once t v calls).1
stop_at_once-IsStopped t v calls p q h = omega (arith, h)

-- `mixed` as it is stored.
abbrev series : List ℕ
series = elim (append_to copy mixed []) [ ok bs ↦ bs | err e ↦ [] ]

sample_values-keeps_example : Ends IsStopped (sample_values copy plain 5 9 stop_at_once series 0).0
sample_values-keeps_example =
    sample_values-keeps copy plain 5 9 stop_at_once IsStopped stop_at_once-IsStopped series 0 refl

counter_values-keeps_example :
    Ends IsStopped (counter_values copy plain 5 9 stop_at_once series 0).0
counter_values-keeps_example =
    counter_values-keeps copy plain 5 9 stop_at_once IsStopped stop_at_once-IsStopped series 0 refl

-- A reader that stops at its first call: a sample at 9 ends the bucket of the one at 7, and a bucket
-- of counters at 2 the one of two operations at 7.
abbrev never : ℕ → Float64 → Calls → Bool
never t v calls = false

range-stopped_example :
    IsRangeRead never
      (samples_scanned never plain trend.Agg.max copy 0 20 2 series).s
      (sample_range copy plain 0 20 (recording never) 2 trend.Agg.max series [])
    × IsRangeRead never
        (counters_scanned never plain trend.Agg.max copy 0 20 2 series).s
        (counter_range copy plain 0 20 (recording never) 2 trend.Agg.max series [])
range-stopped_example =
    range-stopped never plain trend.Agg.max copy 0 20 2 series λ e. absurd (omega (arith, e))
