-- ===== src/Counters/Buckets.antt =====
-- `mergeCounterBuckets` of counters_state.go: sums by time.
use trend.Prelude.{ℕ, ◌+◌, ◌%◌, ◌^◌, ◌<◌, ◌≡◌, refl, ap, ◌∙◌, arith}
use trend.Prelude.{List, [], ◌∷◌, map, foldl, foldl-append, All, ◌==◌, if◌then◌else◌}
use trend.Data.{CounterBucket}
use trend.Maps.{lookup, keys, get_or, sorted_times, IsIncreasing, mem}
use trend.Maps.Laws.{
  lookup-insert, insert-IsDistinct, IsDistinct, sorted_times-IsIncreasing, mem-sorted_times,
}
use trend.Counters.{add_sum, add_bucket, buckets_of, merge_counter_buckets}

-- What the buckets of a time add up to, on uint64.
unfoldable pub sum_at : ℕ → List CounterBucket → ℕ
sum_at t [] = 0
sum_at t (b ∷ bs) = if b.time == t then (b.sum + sum_at t bs) % 2 ^ 64 else sum_at t bs

pub get-add_sum :
    (t k sum : ℕ) (m : List (ℕ × ℕ))
    → get_or (add_sum m k sum) t 0
      ≡ (if k == t then (get_or m t 0 + sum) % 2 ^ 64 else get_or m t 0)
unfolding add_sum
get-add_sum t k sum m = ground (arith, lookup-insert t k ((get_or m k 0 + sum) % 2 ^ 64) m)

pub get-add_buckets :
    (t : ℕ) (bs : List CounterBucket) (m : List (ℕ × ℕ))
    → get_or m t 0 < 2 ^ 64
    → get_or (foldl add_bucket m bs) t 0 ≡ (get_or m t 0 + sum_at t bs) % 2 ^ 64
unfolding sum_at
get-add_buckets t [] m h = omega arith
get-add_buckets t (b ∷ bs) m h =
    ground (arith, get-add_sum t b.time b.sum m, get-add_buckets t bs (add_sum m b.time b.sum))

pub add_buckets-IsDistinct :
    (bs : List CounterBucket) (m : List (ℕ × ℕ))
    → IsDistinct (keys m)
    → IsDistinct (keys (foldl add_bucket m bs))
unfolding add_sum
add_buckets-IsDistinct [] m h = h
add_buckets-IsDistinct (b ∷ bs) m h =
    add_buckets-IsDistinct bs (add_sum m b.time b.sum)
      (insert-IsDistinct b.time ((get_or m b.time 0 + b.sum) % 2 ^ 64) m h)

abbrev pub bucket_at : List (ℕ × ℕ) → ℕ → CounterBucket
bucket_at m t = record { time = t; sum = get_or m t 0 }

pub buckets_of-map : (m : List (ℕ × ℕ)) → buckets_of m ≡ map (bucket_at m) (sorted_times m)
unfolding buckets_of
buckets_of-map m = foldl-append (bucket_at m) (sorted_times m) []

sum_at_above :
    (m : List (ℕ × ℕ)) (t : ℕ) (ts : List ℕ)
    → All (λ y. t < y) ts
    → sum_at t (map (bucket_at m) ts) ≡ 0
unfolding sum_at
sum_at_above m t [] h = refl
sum_at_above m t (x ∷ xs) (p, h) = ground (arith, sum_at_above m t xs h)

sum_at-map :
    (m : List (ℕ × ℕ)) (t : ℕ) (ts : List ℕ)
    → IsIncreasing ts
    → get_or m t 0 < 2 ^ 64
    → sum_at t (map (bucket_at m) ts) ≡ (if mem t ts then get_or m t 0 else 0)
unfolding sum_at
sum_at-map m t [] h q = refl
sum_at-map m t (x ∷ xs) (p, h) q = ground (arith, sum_at-map m t xs h q, sum_at_above m x xs p)

pub sum_at-buckets_of :
    (t : ℕ) (m : List (ℕ × ℕ))
    → IsDistinct (keys m)
    → get_or m t 0 < 2 ^ 64
    → sum_at t (buckets_of m) ≡ get_or m t 0
sum_at-buckets_of t m d h =
    ap (sum_at t) (buckets_of-map m)
    ∙ sum_at-map m t (sorted_times m) (sorted_times-IsIncreasing m d) h
    ∙ ground (arith, mem-sorted_times t m)

pub none_at : (t : ℕ) → get_or {V = ℕ} [] t 0 ≡ 0
unfolding lookup
none_at t = refl

pub sum_at-lt : (t : ℕ) (bs : List CounterBucket) → sum_at t bs < 2 ^ 64
unfolding sum_at
sum_at-lt t [] = omega arith
sum_at-lt t (b ∷ bs) = ground (arith, sum_at-lt t bs)

times-map : (m : List (ℕ × ℕ)) (ts : List ℕ) → map (λ b. b.time) (map (bucket_at m) ts) ≡ ts
times-map m [] = refl
times-map m (x ∷ xs) = ap (λ ys. x ∷ ys) (times-map m xs)

pub buckets_of-IsIncreasing :
    (m : List (ℕ × ℕ)) → IsDistinct (keys m) → IsIncreasing (map (λ b. b.time) (buckets_of m))
buckets_of-IsIncreasing m d =
    rw (buckets_of-map m, times-map m (sorted_times m)) (sorted_times-IsIncreasing m d)

-- The merged buckets have strictly increasing times, so there is at most one for a time, and it
-- holds the sum, on uint64, of all buckets of that time on both sides.
pub sum_at-merge :
    (t : ℕ) (a b : List CounterBucket)
    → (sum_at t (merge_counter_buckets a b) ≡ (sum_at t a + sum_at t b) % 2 ^ 64)
      × IsIncreasing (map (λ b. b.time) (merge_counter_buckets a b))
unfolding merge_counter_buckets
sum_at-merge t a b =
    let m : List (ℕ × ℕ) = foldl add_bucket [] a in
    let first = get-add_buckets t a [] (omega (arith, none_at t)) in
    let sums : get_or m t 0 ≡ sum_at t a = omega (arith, first, none_at t, sum_at-lt t a) in
    let both = get-add_buckets t b m (omega (arith, sums, sum_at-lt t a)) in
    let distinct = add_buckets-IsDistinct b m (add_buckets-IsDistinct a [] tt) in
    (
      sum_at-buckets_of t (foldl add_bucket m b) distinct (omega (arith, both))
          ∙ omega (arith, both, sums),
      buckets_of-IsIncreasing (foldl add_bucket m b) distinct,
    )
