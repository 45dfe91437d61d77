-- ===== src/Counters/Appendable.antt =====
-- The order of the columns and buckets that `Merge` of counterData leaves.
use trend.Prelude.{ℕ, ◌≡◌, refl, ap, ◌∙◌, arith, true, ◌&&◌}
use trend.Prelude.{List, [], ◌∷◌, ◌++◌, map, foldl, ltb}
use trend.Data.{CounterData, CounterBucket}
use trend.Times.{strictly_increasing, nondecreasing}
use trend.Times.Laws.{strictly_increasing_lem, blocks_ordered, none_above}
use trend.Maps.{get_or, sorted_times}
use trend.Maps.Laws.{sorted_times-IsIncreasing}
use trend.Counters.{
  CounterOp, add, add_op, ops_of, add_ops, add_bucket, counter_buckets_increasing, appendable,
  merge_counter_buckets, rows, merge,
}
use trend.Counters.Buckets.{add_buckets-IsDistinct, buckets_of-IsIncreasing}
use trend.Counters.Merge.{ops_of-IsDistinct}

buckets_increasing-map :
    (bs : List CounterBucket)
    → counter_buckets_increasing bs ≡ strictly_increasing (map (λ b. b.time) bs)
unfolding counter_buckets_increasing strictly_increasing
buckets_increasing-map [] = refl
buckets_increasing-map (x ∷ []) = refl
buckets_increasing-map (x ∷ (y ∷ ys)) =
    ap (λ c. ltb x.time y.time && c) (buckets_increasing-map (y ∷ ys))

merge_counter_buckets_ordered :
    (a b : List CounterBucket) → counter_buckets_increasing (merge_counter_buckets a b) ≡ true
unfolding merge_counter_buckets
merge_counter_buckets_ordered a b =
    let m : List (ℕ × ℕ) = foldl add_bucket (foldl add_bucket [] a) b in
    let distinct =
      add_buckets-IsDistinct b (foldl add_bucket [] a) (add_buckets-IsDistinct a [] tt) in
    buckets_increasing-map (merge_counter_buckets a b)
    ∙ strictly_increasing_lem (map (λ (b : CounterBucket). b.time) (merge_counter_buckets a b))
        (buckets_of-IsIncreasing m distinct)

module _ (order : ℕ → List CounterOp → List CounterOp) where
  push : ℕ → CounterData → CounterOp → CounterData
  push t d op = add d t op.replica op.clock op.value

  push-time : (t : ℕ) (d : CounterData) (op : CounterOp) → (push t d op).time ≡ d.time ++ (t ∷ [])
  unfolding push add
  push-time t d op = refl

  time_ordered : (d delta : CounterData) → nondecreasing (merge order d delta).time ≡ true
  unfolding merge add_ops push ops_of nondecreasing
  time_ordered d delta =
      let ops = ops_of d delta in
      let cleared : CounterData = record d { time = []; replica = []; clock = []; value = [] } in
      blocks_ordered (λ (d : CounterData). d.time) push push-time (λ t. order t (get_or ops t []))
        (sorted_times ops) cleared
        (sorted_times-IsIncreasing ops (
          ops_of-IsDistinct (rows delta) (foldl add_op [] (rows d))
            (ops_of-IsDistinct (rows d) [] tt)))
        refl (none_above (sorted_times ops))

  merge-buckets :
      (d delta : CounterData)
      → (merge order d delta).buckets ≡ merge_counter_buckets d.buckets delta.buckets
  unfolding merge
  merge-buckets d delta = refl

  pub appendable-merge : (d delta : CounterData) → appendable (merge order d delta) ≡ true
  unfolding appendable
  appendable-merge d delta =
      let buckets : counter_buckets_increasing (merge order d delta).buckets ≡ true =
        rw (merge-buckets d delta) (merge_counter_buckets_ordered d.buckets delta.buckets) in
      ground (arith, time_ordered d delta, buckets)
