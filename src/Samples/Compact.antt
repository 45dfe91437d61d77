-- ===== src/Samples/Compact.antt =====
-- The buckets of `Compact` of sampleData in sample_state.go.
use trend.Prelude.{ℕ, ◌<◌, ◌≡◌, ◌⊎◌, refl, sym, ap, ◌∙◌, arith, true, false}
use trend.Prelude.{
  List, [], ◌∷◌, ◌++◌, map, foldl, foldl-append, length, leb, ◌==◌, if◌then◌else◌, All,
}
use trend.Float.{Float64, Arith}
use trend.Data.{SampleData, SampleBucket}
use trend.Times.{bucket_of}
use trend.Agg.{Fold, empty_fold}
use trend.Maps.{lookup, insert, keys, get_or, sorted_times, IsIncreasing, mem}
use trend.Maps.Laws.{
  IsDistinct, insert-IsDistinct, lookup-insert, sorted_times-IsIncreasing, mem-sorted_times,
  is_some,
}
use trend.Samples.{SamplePoint, zero_bucket, add, rows_of, rows, pack, compact_row, compact}

abbrev pub recent : ℕ → List (ℕ × SamplePoint) → List (ℕ × SamplePoint)
recent cutoff [] = []
recent cutoff ((t, p) ∷ rs) = if leb cutoff t then (t, p) ∷ recent cutoff rs else recent cutoff rs

-- The values before the cutoff whose bucket is `k`, in their order.
abbrev pub old_values : ℕ → ℕ → ℕ → List (ℕ × SamplePoint) → List Float64
old_values cutoff span k [] = []
old_values cutoff span k ((t, p) ∷ rs) =
    if leb cutoff t
    then old_values cutoff span k rs
    else if bucket_of t span == k
    then p.value ∷ old_values cutoff span k rs
    else old_values cutoff span k rs

-- A bucket as a fold of agg.go.
abbrev pub fold_of : SampleBucket → Fold
fold_of b = record {
  count = b.count;
  sum = b.sum;
  min = b.min;
  max = b.max;
  first = b.first;
  last = b.last;
}

-- The last bucket of a time, and the empty fold where there is none.
abbrev pub fold_at : ℕ → List SampleBucket → Fold
fold_at k bs = foldl (λ f (b : SampleBucket). if b.time == k then fold_of b else f) empty_fold bs

module _ (fp : Arith) where
  -- `Compact` packs a value the way a fold of agg.go adds it.
  pub fold_of-pack :
      (t : ℕ) (v : Float64) (b : SampleBucket)
      → fold_of (pack fp t v b) ≡ trend.Agg.add fp (fold_of b) v
  unfolding pack trend.Agg.add
  fold_of-pack t v b = ground arith

-- Every bucket of a map stands under its own time.
abbrev pub IsKeyed : List (ℕ × SampleBucket) → Type 0
IsKeyed m = (k : ℕ) → is_some (lookup k m) ≡ true → (get_or m k zero_bucket).time ≡ k

pub insert-IsKeyed :
    (t : ℕ) (b : SampleBucket) (m : List (ℕ × SampleBucket))
    → b.time ≡ t
    → IsKeyed m
    → IsKeyed (insert t b m)
insert-IsKeyed t b m e h k = ground (arith, e, h k, lookup-insert k t b m)

abbrev pub old_buckets : List (ℕ × SampleBucket) → List SampleBucket → List (ℕ × SampleBucket)
old_buckets m bs = foldl (λ m (b : SampleBucket). insert b.time b m) m bs

pub old_buckets-IsKeyed :
    (bs : List SampleBucket) (m : List (ℕ × SampleBucket)) → IsKeyed m → IsKeyed (old_buckets m bs)
old_buckets-IsKeyed [] m h = h
old_buckets-IsKeyed (b ∷ bs) m h =
    old_buckets-IsKeyed bs (insert b.time b m) (insert-IsKeyed b.time b m refl h)

pub old_buckets-IsDistinct :
    (bs : List SampleBucket) (m : List (ℕ × SampleBucket))
    → IsDistinct (keys m)
    → IsDistinct (keys (old_buckets m bs))
old_buckets-IsDistinct [] m h = h
old_buckets-IsDistinct (b ∷ bs) m h =
    old_buckets-IsDistinct bs (insert b.time b m) (insert-IsDistinct b.time b m h)

abbrev bucket_fold : List (ℕ × SampleBucket) → ℕ → Fold
bucket_fold m k = fold_of (get_or m k zero_bucket)

old_buckets-fold :
    (k : ℕ) (bs : List SampleBucket) (m : List (ℕ × SampleBucket))
    → bucket_fold (old_buckets m bs) k
      ≡ foldl (λ f (b : SampleBucket). if b.time == k then fold_of b else f) (bucket_fold m k) bs
old_buckets-fold k [] m = refl
old_buckets-fold k (b ∷ bs) m =
    old_buckets-fold k bs (insert b.time b m)
    ∙ ap (λ f. foldl (λ f (b : SampleBucket). if b.time == k then fold_of b else f) f bs)
        (ground (arith, lookup-insert k b.time b m))

-- The buckets of a map in the order of their times.
fold_at_above :
    (m : List (ℕ × SampleBucket)) (k : ℕ) (ts : List ℕ) (f : Fold)
    → IsKeyed m
    → All (λ t. is_some (lookup t m) ≡ true) ts
    → All (λ y. k < y) ts
    → foldl
        (λ f (b : SampleBucket). if b.time == k then fold_of b else f)
        f
        (map (λ t. get_or m t zero_bucket) ts)
      ≡ f
fold_at_above m k [] f h a i = refl
fold_at_above m k (t ∷ ts) f h (p, a) (q, i) =
    ground (arith, q, h t p, fold_at_above m k ts f h a i)

fold_at-map :
    (m : List (ℕ × SampleBucket)) (k : ℕ) (ts : List ℕ) (f : Fold)
    → IsKeyed m
    → All (λ t. is_some (lookup t m) ≡ true) ts
    → IsIncreasing ts
    → foldl
        (λ f (b : SampleBucket). if b.time == k then fold_of b else f)
        f
        (map (λ t. get_or m t zero_bucket) ts)
      ≡ (if mem k ts then bucket_fold m k else f)
fold_at-map m k [] f h a i = refl
fold_at-map m k (t ∷ ts) f h (p, a) (q, i) =
    ground (arith, h t p, fold_at_above m t ts (bucket_fold m t) h a q, fold_at-map m k ts f h a i)

pub All-of_mem : (P : ℕ → Type 0) (ts : List ℕ) → ((t : ℕ) → mem t ts ≡ true → P t) → All P ts
All-of_mem P [] h = tt
All-of_mem P (t ∷ ts) h = (h t (ground arith), All-of_mem P ts λ x e. h x (ground (arith, e)))

abbrev listed : List (ℕ × SampleBucket) → List SampleBucket
listed m = foldl (λ out t. out ++ (get_or m t zero_bucket ∷ [])) [] (sorted_times m)

fold_at-listed :
    (m : List (ℕ × SampleBucket)) (k : ℕ)
    → IsKeyed m
    → IsDistinct (keys m)
    → fold_at k (listed m) ≡ bucket_fold m k
fold_at-listed m k h d =
    ap (fold_at k) (foldl-append (λ t. get_or m t zero_bucket) (sorted_times m) [])
    ∙ fold_at-map m k (sorted_times m) empty_fold h
        (All-of_mem (λ t. is_some (lookup t m) ≡ true) (sorted_times m)
          λ t e. sym (mem-sorted_times t m) ∙ e)
        (sorted_times-IsIncreasing m d)
    ∙ ground (arith, mem-sorted_times k m)

times-map :
    (m : List (ℕ × SampleBucket)) (ts : List ℕ)
    → IsKeyed m
    → All (λ t. is_some (lookup t m) ≡ true) ts
    → map (λ b. b.time) (map (λ t. get_or m t zero_bucket) ts) ≡ ts
times-map m [] h a = refl
times-map m (t ∷ ts) h (p, a) = ground (arith, h t p, times-map m ts h a)

listed-IsIncreasing :
    (m : List (ℕ × SampleBucket))
    → IsKeyed m
    → IsDistinct (keys m)
    → IsIncreasing (map (λ b. b.time) (listed m))
listed-IsIncreasing m h d =
    let ts = sorted_times m in
    let present =
      All-of_mem (λ t. is_some (lookup t m) ≡ true) ts λ t e. sym (mem-sorted_times t m) ∙ e in
    rw (foldl-append (λ t. get_or m t zero_bucket) ts [], times-map m ts h present)
      (sorted_times-IsIncreasing m d)

module _ (fp : Arith) (cutoff span : ℕ) where
  abbrev go :
      SampleData × List (ℕ × SampleBucket)
      → List (ℕ × SamplePoint)
      → SampleData × List (ℕ × SampleBucket)
  go s rs = foldl (compact_row fp cutoff span) s rs

  pack-time :
      (t : ℕ) (v : Float64) (m : List (ℕ × SampleBucket))
      → IsKeyed m
      → (pack fp t v (get_or m t zero_bucket)).time ≡ t
  unfolding pack
  pack-time t v m h = ground (arith, h t)

  go-IsKeyed :
      (rs : List (ℕ × SamplePoint)) (kept : SampleData) (m : List (ℕ × SampleBucket))
      → IsKeyed m
      → IsDistinct (keys m)
      → IsKeyed (go (kept, m) rs).1 × IsDistinct (keys (go (kept, m) rs).1)
  unfolding compact_row
  go-IsKeyed [] kept m h d = (h, d)
  go-IsKeyed ((t, p) ∷ rs) kept m h d =
      let k = bucket_of t span in
      let b = pack fp k p.value (get_or m k zero_bucket) in
      elim (leb cutoff t)
        as (λ c.
          let s : SampleData × List (ℕ × SampleBucket) =
            if c then (add kept t p.value p.clock p.replica, m) else (kept, insert k b m) in
          IsKeyed (go s rs).1 × IsDistinct (keys (go s rs).1)) [
            | true ↦ go-IsKeyed rs (add kept t p.value p.clock p.replica) m h d
            | false ↦
                go-IsKeyed rs kept (insert k b m) (insert-IsKeyed k b m (pack-time k p.value m h) h)
                  (insert-IsDistinct k b m d)
          ]

  go-fold :
      (k : ℕ) (rs : List (ℕ × SamplePoint)) (kept : SampleData) (m : List (ℕ × SampleBucket))
      → bucket_fold (go (kept, m) rs).1 k
        ≡ foldl (trend.Agg.add fp) (bucket_fold m k) (old_values cutoff span k rs)
  unfolding compact_row
  go-fold k [] kept m = refl
  go-fold k ((t, p) ∷ rs) kept m =
      let j = bucket_of t span in
      let b = pack fp j p.value (get_or m j zero_bucket) in
      ground (
        arith,
        go-fold k rs (add kept t p.value p.clock p.replica) m,
        go-fold k rs kept (insert j b m),
        lookup-insert k j b m,
        fold_of-pack fp j p.value (get_or m j zero_bucket),
      )

pub no_rows :
    (ts : List ℕ) (vs : List Float64) (cs rs : List ℕ) → length ts ≡ 0 → rows_of ts vs cs rs ≡ []
unfolding rows_of
no_rows [] vs cs rs h = refl
no_rows (t ∷ ts) vs cs rs h = absurd (omega (arith, h))

module _ (fp : Arith) (d : SampleData) (cutoff span : ℕ) where
  abbrev none_kept : SampleData
  none_kept = record { time = []; values = []; clock = []; replica = []; buckets = [] }

  abbrev start : List (ℕ × SampleBucket)
  start = old_buckets [] d.buckets

  none-IsKeyed : IsKeyed []
  unfolding lookup
  none-IsKeyed k h = absurd (ground (arith, h))

  start-IsKeyed : IsKeyed start
  start-IsKeyed = old_buckets-IsKeyed d.buckets [] none-IsKeyed

  start-IsDistinct : IsDistinct (keys start)
  start-IsDistinct = old_buckets-IsDistinct d.buckets [] tt

  start-fold : (k : ℕ) → bucket_fold start k ≡ fold_at k d.buckets
  unfolding lookup
  start-fold k = old_buckets-fold k d.buckets []

  -- After `Compact` the bucket of a time is the fold of agg.go that goes on from the bucket that was
  -- there, or from nothing, with the values before the cutoff whose bucket it is, in their order.
  -- The times of the buckets strictly increase, so there is at most one for a time, unless there is
  -- no raw point: then nothing changes.
  pub fold_at-compact :
      (k : ℕ)
      → (fold_at k (compact fp d cutoff span).buckets
          ≡ foldl (trend.Agg.add fp) (fold_at k d.buckets) (old_values cutoff span k (rows d)))
        × (IsIncreasing (map (λ b. b.time) (compact fp d cutoff span).buckets)
            ⊎ (length d.time ≡ 0) × (compact fp d cutoff span ≡ d))
  unfolding compact rows
  fold_at-compact k =
      let m = (go fp cutoff span (none_kept, start) (rows d)).1 in
      let (h, i) =
        go-IsKeyed fp cutoff span (rows d) none_kept start start-IsKeyed start-IsDistinct in
      (
        ground (
          arith,
          no_rows d.time d.values d.clock d.replica,
          fold_at-listed m k h i,
          go-fold fp cutoff span k (rows d) none_kept start,
          start-fold k,
        ),
        ground (arith, listed-IsIncreasing m h i),
      )
