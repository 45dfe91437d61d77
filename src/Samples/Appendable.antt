-- ===== src/Samples/Appendable.antt =====
-- The order of the columns and buckets that `Merge` of sampleData leaves.
use trend.Prelude.{ℕ, ◌≡◌, refl, sym, ap, ap₂, ◌∙◌, arith, true, ◌&&◌}
use trend.Prelude.{none, some, List, [], ◌∷◌, map, foldl, foldl-append, ltb, All}
use trend.Float.{Arith}
use trend.Data.{SampleData, SampleBucket}
use trend.Times.{strictly_increasing}
use trend.Times.Laws.{strictly_increasing_lem}
use trend.Maps.{lookup, insert, keys, get_or, sorted_times}
use trend.Maps.Laws.{
  IsDistinct, insert-IsDistinct, sorted_times-IsIncreasing, mem-sorted_times, is_some,
}
use trend.Samples.{
  zero_bucket, sample_buckets_increasing, appendable, combine_sample_bucket, merge_bucket,
  merge_sample_buckets, merge,
}
use trend.Samples.Merge.{merge-IsCanonical}
use trend.Samples.Compact.{
  IsKeyed, insert-IsKeyed, old_buckets, old_buckets-IsKeyed, old_buckets-IsDistinct, All-of_mem,
}

buckets_increasing-map :
    (bs : List SampleBucket)
    → sample_buckets_increasing bs ≡ strictly_increasing (map (λ b. b.time) bs)
unfolding sample_buckets_increasing strictly_increasing
buckets_increasing-map [] = refl
buckets_increasing-map (x ∷ []) = refl
buckets_increasing-map (x ∷ (y ∷ ys)) =
    ap (λ c. ltb x.time y.time && c) (buckets_increasing-map (y ∷ ys))

keyed_times :
    (m : List (ℕ × SampleBucket)) (ts : List ℕ)
    → IsKeyed m
    → All (λ t. is_some (lookup t m) ≡ true) ts
    → map (λ (b : SampleBucket). b.time) (map (λ t. get_or m t zero_bucket) ts) ≡ ts
keyed_times m [] h a = refl
keyed_times m (t ∷ ts) h (p, a) = ap₂ (λ x xs. x ∷ xs) (h t p) (keyed_times m ts h a)

module _ (fp : Arith) where
  combine_time :
      (a b : SampleBucket) → a.time ≡ b.time → (combine_sample_bucket fp a b).time ≡ b.time
  unfolding combine_sample_bucket
  combine_time a b h = ground (arith, h)

  merge_bucket-IsKeyed :
      (m : List (ℕ × SampleBucket)) (x : SampleBucket)
      → IsKeyed m
      → IsDistinct (keys m)
      → IsKeyed (merge_bucket fp m x) × IsDistinct (keys (merge_bucket fp m x))
  unfolding merge_bucket
  merge_bucket-IsKeyed m x h d =
      elim (lookup x.time m)
          as (λ o.
            (let b : SampleBucket = elim o [ none ↦ zero_bucket | some v ↦ v ] in
              is_some o ≡ true → b.time ≡ x.time)
            → (let m' : List (ℕ × SampleBucket) = elim o [
              | none ↦ insert x.time x m
              | some old ↦ insert x.time (combine_sample_bucket fp old x) m
            ] in
                IsKeyed m' × IsDistinct (keys m'))) [
                  | none ↦ λ e. (insert-IsKeyed x.time x m refl h, insert-IsDistinct x.time x m d)
                  | some old ↦ λ e.
                      let b = combine_sample_bucket fp old x in
                      (
                        insert-IsKeyed x.time b m (combine_time old x (e refl)) h,
                        insert-IsDistinct x.time b m d,
                      )
                ]
        (h x.time)

  merge_buckets-IsKeyed :
      (bs : List SampleBucket) (m : List (ℕ × SampleBucket))
      → IsKeyed m
      → IsDistinct (keys m)
      → IsKeyed (foldl (merge_bucket fp) m bs) × IsDistinct (keys (foldl (merge_bucket fp) m bs))
  merge_buckets-IsKeyed [] m h d = (h, d)
  merge_buckets-IsKeyed (x ∷ bs) m h d =
      let (h', d') = merge_bucket-IsKeyed m x h d in
      merge_buckets-IsKeyed bs (merge_bucket fp m x) h' d'

  none-IsKeyed : IsKeyed []
  unfolding lookup
  none-IsKeyed k h = absurd (ground (arith, h))

  merge_sample_buckets_ordered :
      (a b : List SampleBucket) → sample_buckets_increasing (merge_sample_buckets fp a b) ≡ true
  unfolding merge_sample_buckets
  merge_sample_buckets_ordered a b =
      let m = foldl (merge_bucket fp) (old_buckets [] a) b in
      let (h, d) =
        merge_buckets-IsKeyed b (old_buckets [] a) (old_buckets-IsKeyed a [] none-IsKeyed)
          (old_buckets-IsDistinct a [] tt) in
      let some_at =
        All-of_mem (λ t. is_some (lookup t m) ≡ true) (sorted_times m)
          λ t e. sym (mem-sorted_times t m) ∙ e in
      buckets_increasing-map (merge_sample_buckets fp a b)
      ∙ ap (λ bs. strictly_increasing (map (λ (b : SampleBucket). b.time) bs))
          (foldl-append (λ t. get_or m t zero_bucket) (sorted_times m) [])
      ∙ ap strictly_increasing (keyed_times m (sorted_times m) h some_at)
      ∙ strictly_increasing_lem (sorted_times m) (sorted_times-IsIncreasing m d)

  merge-buckets :
      (d delta : SampleData)
      → (merge fp d delta).buckets ≡ merge_sample_buckets fp d.buckets delta.buckets
  unfolding merge
  merge-buckets d delta = refl

  pub appendable-merge : (d delta : SampleData) → appendable (merge fp d delta) ≡ true
  unfolding appendable
  appendable-merge d delta =
      let time : strictly_increasing (merge fp d delta).time ≡ true =
        strictly_increasing_lem (merge fp d delta).time (merge-IsCanonical fp d delta).increasing in
      let buckets : sample_buckets_increasing (merge fp d delta).buckets ≡ true =
        rw (merge-buckets d delta) (merge_sample_buckets_ordered d.buckets delta.buckets) in
      ground (arith, time, buckets)
