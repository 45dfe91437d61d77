-- ===== src/Counters/Compact.antt =====
-- `Compact` of counterData in counters_state.go.
use trend.Prelude.{ℕ, ◌+◌, ◌%◌, ◌^◌, ◌<◌, ◌≡◌, refl, sym, ◌∙◌, arith}
use trend.Prelude.{
  List, [], ◌∷◌, ◌++◌, append-nil, append_assoc, map, foldl, leb, ◌==◌, if◌then◌else◌,
}
use trend.Data.{CounterData}
use trend.Times.{bucket_of}
use trend.Maps.{keys, get_or, IsIncreasing}
use trend.Maps.Laws.{IsDistinct, insert-IsDistinct}
use trend.Counters.{CounterOp, add, rows_of, rows, add_sum, add_bucket, compact_row, compact}
use trend.Counters.Buckets.{
  sum_at, get-add_sum, get-add_buckets, sum_at-buckets_of, sum_at-lt, add_buckets-IsDistinct,
  none_at, buckets_of-IsIncreasing,
}
use trend.Counters.Merge.{IsRect, rows-add, add-IsRect}

-- The rows that are kept, in their order.
abbrev pub recent : ℕ → List (ℕ × CounterOp) → List (ℕ × CounterOp)
recent cutoff [] = []
recent cutoff ((t, op) ∷ rs) = if leb cutoff t then (t, op) ∷ recent cutoff rs else recent cutoff rs

-- What the rows before the cutoff add to the bucket at `k`, on uint64.
unfoldable pub old_sum : ℕ → ℕ → ℕ → List (ℕ × CounterOp) → ℕ
old_sum cutoff span k [] = 0
old_sum cutoff span k ((t, op) ∷ rs) =
    if leb cutoff t
    then old_sum cutoff span k rs
    else if bucket_of t span == k
    then (op.value + old_sum cutoff span k rs) % 2 ^ 64
    else old_sum cutoff span k rs

module _ (cutoff span : ℕ) where
  abbrev State : Type 0
  State = CounterData × List (ℕ × ℕ)

  abbrev go : State → List (ℕ × CounterOp) → State
  go s rs = foldl (compact_row cutoff span) s rs

  kept_rows :
      (rs : List (ℕ × CounterOp)) (kept : CounterData) (m : List (ℕ × ℕ))
      → IsRect kept
      → rows (go (kept, m) rs).0 ≡ rows kept ++ recent cutoff rs
  unfolding compact_row
  kept_rows [] kept m h = sym (append-nil (rows kept))
  kept_rows ((t, op) ∷ rs) kept m h = ground (
    arith,
    rows-add kept t op.replica op.clock op.value h,
    append_assoc (rows kept) ((t, op) ∷ []) (recent cutoff rs),
    kept_rows rs (add kept t op.replica op.clock op.value) m
        (add-IsRect kept t op.replica op.clock op.value h),
    kept_rows rs kept (add_sum m (bucket_of t span) op.value) h,
  )

  old_sum-lt : (k : ℕ) (rs : List (ℕ × CounterOp)) → old_sum cutoff span k rs < 2 ^ 64
  unfolding old_sum
  old_sum-lt k [] = omega arith
  old_sum-lt k ((t, op) ∷ rs) = ground (arith, old_sum-lt k rs)

  old_sums :
      (k : ℕ) (rs : List (ℕ × CounterOp)) (kept : CounterData) (m : List (ℕ × ℕ))
      → get_or m k 0 < 2 ^ 64
      → get_or (go (kept, m) rs).1 k 0 ≡ (get_or m k 0 + old_sum cutoff span k rs) % 2 ^ 64
  unfolding compact_row old_sum
  old_sums k [] kept m h = omega arith
  old_sums k ((t, op) ∷ rs) kept m h = ground (
    arith,
    get-add_sum k (bucket_of t span) op.value m,
    old_sums k rs (add kept t op.replica op.clock op.value) m h,
    old_sums k rs kept (add_sum m (bucket_of t span) op.value),
  )

  go-IsDistinct :
      (rs : List (ℕ × CounterOp)) (kept : CounterData) (m : List (ℕ × ℕ))
      → IsDistinct (keys m)
      → IsDistinct (keys (go (kept, m) rs).1)
  unfolding compact_row add_sum
  go-IsDistinct [] kept m h = h
  go-IsDistinct ((t, op) ∷ rs) kept m h = ground (
    arith,
    go-IsDistinct rs (add kept t op.replica op.clock op.value) m h,
    go-IsDistinct rs kept (add_sum m (bucket_of t span) op.value) (
        insert-IsDistinct (bucket_of t span) ((get_or m (bucket_of t span) 0 + op.value) % 2 ^ 64) m
          h),
  )

module _ (d : CounterData) (cutoff span : ℕ) where
  abbrev none_kept : CounterData
  none_kept = record { time = []; replica = []; clock = []; value = []; buckets = [] }

  abbrev start : List (ℕ × ℕ)
  start = foldl add_bucket [] d.buckets

  abbrev last_state : CounterData × List (ℕ × ℕ)
  last_state = go cutoff span (none_kept, start) (rows d)

  -- `Compact` keeps the operations from the cutoff on, in their order, and no others.
  pub counter_rows-compact : rows (compact d cutoff span) ≡ recent cutoff (rows d)
  unfolding compact rows rows_of
  counter_rows-compact =
      kept_rows cutoff span (rows d) none_kept start
        record { replica_length = refl; clock_length = refl; value_length = refl }

  -- After `Compact` the buckets of a time hold, on uint64, what they held before and all the
  -- operations before the cutoff whose bucket it is, and the times of the buckets strictly
  -- increase.
  pub sum_at-compact :
      (k : ℕ)
      → (sum_at k (compact d cutoff span).buckets
          ≡ (sum_at k d.buckets + old_sum cutoff span k (rows d)) % 2 ^ 64)
        × IsIncreasing (map (λ b. b.time) (compact d cutoff span).buckets)
  unfolding compact
  sum_at-compact k =
      let first = get-add_buckets k d.buckets [] (omega (arith, none_at k)) in
      let sums : get_or start k 0 ≡ sum_at k d.buckets =
        omega (arith, first, none_at k, sum_at-lt k d.buckets) in
      let m = last_state.1 in
      let old =
        old_sums cutoff span k (rows d) none_kept start
          (omega (arith, sums, sum_at-lt k d.buckets)) in
      let distinct : IsDistinct (keys m) =
        go-IsDistinct cutoff span (rows d) none_kept start
          (add_buckets-IsDistinct d.buckets [] tt) in
      (
        sum_at-buckets_of k m distinct (omega (arith, old)) ∙ omega (arith, old, sums),
        buckets_of-IsIncreasing m distinct,
      )
