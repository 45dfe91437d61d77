-- ===== src/Counters.antt =====
-- Counter series: counterData of series.go and its methods in counters_state.go.
pub mod Merge
pub mod Buckets
pub mod Compact
pub mod Appendable
use trend.Prelude.{ℕ, ◌+◌, ◌%◌, ◌^◌, Bool, true, false, ◌&&◌, ◌||◌}
use trend.Prelude.{List, [], ◌∷◌, ◌++◌, foldl, length, ltb, leb, ◌==◌, if◌then◌else◌}
use trend.Data.{CounterData, CounterBucket}
use trend.Times.{nondecreasing, min_step, bucket_of}
use trend.Maps.{insert, get_or, sorted_times}

pub record CounterOp : Type 0 where
  pub replica : ℕ
  pub clock : ℕ
  pub value : ℕ

unfoldable pub add : CounterData → ℕ → ℕ → ℕ → ℕ → CounterData
add d t replica clock value = record d {
  time = d.time ++ (t ∷ []);
  replica = d.replica ++ (replica ∷ []);
  clock = d.clock ++ (clock ∷ []);
  value = d.value ++ (value ∷ []);
}

unfoldable pub reset : CounterData → CounterData
reset d = record { time = []; replica = []; clock = []; value = []; buckets = [] }

unfoldable pub count : CounterData → ℕ
count d = length d.time + length d.buckets

unfoldable pub counter_buckets_increasing : List CounterBucket → Bool
counter_buckets_increasing [] = true
counter_buckets_increasing (x ∷ xs) =
    elim xs [ [] ↦ true | y ∷ _ ↦ ltb x.time y.time ] && counter_buckets_increasing xs

unfoldable pub appendable : CounterData → Bool
unfolding counter_buckets_increasing
appendable d = nondecreasing d.time && counter_buckets_increasing d.buckets

unfoldable pub min_time : CounterData → ℕ × Bool
min_time d =
    foldl (λ s (b : CounterBucket). min_step s b.time) (foldl min_step (0, false) d.time) d.buckets

-- The columns side by side. All have one length wherever `Merge` runs.
unfoldable pub rows_of : List ℕ → List ℕ → List ℕ → List ℕ → List (ℕ × CounterOp)
rows_of (t ∷ ts) (r ∷ rs) (c ∷ cs) (v ∷ vs) =
    (t, record { replica = r; clock = c; value = v }) ∷ rows_of ts rs cs vs
rows_of _ _ _ _ = []

unfoldable pub rows : CounterData → List (ℕ × CounterOp)
unfolding rows_of
rows d = rows_of d.time d.replica d.clock d.value

abbrev pub op_eq : CounterOp → CounterOp → Bool
op_eq a b = a.replica == b.replica && (a.clock == b.clock && a.value == b.value)

abbrev pub mem_op : CounterOp → List CounterOp → Bool
mem_op op [] = false
mem_op op (x ∷ xs) = op_eq x op || mem_op op xs

-- A set of operations, `map[counterOp]struct{}`, as a list without repetitions.
unfoldable pub insert_op : CounterOp → List CounterOp → List CounterOp
insert_op op xs = if mem_op op xs then xs else xs ++ (op ∷ [])

-- The closure `add` of `Merge`.
unfoldable pub add_op : List (ℕ × List CounterOp) → ℕ × CounterOp → List (ℕ × List CounterOp)
unfolding insert_op
add_op ops (t, op) = insert t (insert_op op (get_or ops t [])) ops

unfoldable pub ops_of : CounterData → CounterData → List (ℕ × List CounterOp)
unfolding add_op
ops_of d delta = foldl add_op (foldl add_op [] (rows d)) (rows delta)

unfoldable pub add_ops : ℕ → CounterData → List CounterOp → CounterData
add_ops t d ops = foldl (λ e (op : CounterOp). add e t op.replica op.clock op.value) d ops

-- `buckets[t] += sum`.
unfoldable pub add_sum : List (ℕ × ℕ) → ℕ → ℕ → List (ℕ × ℕ)
add_sum m t sum = insert t ((get_or m t 0 + sum) % 2 ^ 64) m

abbrev pub add_bucket : List (ℕ × ℕ) → CounterBucket → List (ℕ × ℕ)
add_bucket m b = add_sum m b.time b.sum

-- The buckets of a map in the order of their times.
unfoldable pub buckets_of : List (ℕ × ℕ) → List CounterBucket
buckets_of m =
    foldl (λ out t. out ++ (record { time = t; sum = get_or m t 0 } ∷ [])) [] (sorted_times m)

unfoldable pub merge_counter_buckets : List CounterBucket → List CounterBucket → List CounterBucket
unfolding add_sum buckets_of
merge_counter_buckets a b = buckets_of (foldl add_bucket (foldl add_bucket [] a) b)

-- `order` is the order in which `range` visits the operations of a time, which Go leaves open.
unfoldable pub merge :
    (ℕ → List CounterOp → List CounterOp) → CounterData → CounterData → CounterData
merge order d delta =
    let ops = ops_of d delta in
    let cleared : CounterData = record d { time = []; replica = []; clock = []; value = [] } in
    let merged =
      foldl (λ e t. add_ops t e (order t (get_or ops t []))) cleared (sorted_times ops) in
    record merged { buckets = merge_counter_buckets d.buckets delta.buckets }

-- A round of `Compact` on the columns kept so far and the buckets.
unfoldable pub compact_row :
    ℕ → ℕ → CounterData × List (ℕ × ℕ) → ℕ × CounterOp → CounterData × List (ℕ × ℕ)
unfolding add add_sum
compact_row cutoff span (kept, buckets) (t, op) =
    if leb cutoff t
    then (add kept t op.replica op.clock op.value, buckets)
    else (kept, add_sum buckets (bucket_of t span) op.value)

unfoldable pub compact : CounterData → ℕ → ℕ → CounterData
unfolding compact_row buckets_of
compact d cutoff span =
    let none_kept : CounterData = record {
      time = [];
      replica = [];
      clock = [];
      value = [];
      buckets = [];
    } in
    let (kept, buckets) =
      foldl (compact_row cutoff span) (none_kept, foldl add_bucket [] d.buckets) (rows d) in
    record kept { buckets = buckets_of buckets }
