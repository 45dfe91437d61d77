-- ===== src/Codec/BucketRows/Counters.antt =====
-- The counter bucket loop of block.go.
use trend.Prelude.{ℕ, zero, suc, ◌≤◌, ◌<◌, ◌≡◌, refl, arith, min}
use trend.Prelude.{
  List, [], ◌∷◌, ◌++◌, append-nil, append_assoc, length, length-take, length-drop, All, All-take,
  All-drop, take, drop, take-append-drop,
}
use trend.Data.{CounterBucket, Pending, IsU64}
use trend.Codec.Segment.{
  Compressor, IsLossless, append_segment, segment_size, segment_counter_buckets,
}
use trend.Codec.Block.{append_counter_buckets}
use trend.Codec.Segments.{last_or, last_counter_time, append_counter_bucket_segments_loop}
use trend.Codec.Buckets.{
  IsCounterBucket, counter_bucket_bytes, append_counter_buckets-bytes, length-counter_bucket_bytes,
}
use trend.Codec.Bodies.{decode_counter_buckets-body}
use trend.Codec.Rows.{chunk-IsBlock}
use trend.Codec.Writes.{
  IsAscending, IsAscending-drop, Writes, Writes-refl, Writes-trans, Writes-counter_buckets,
}
use trend.Codec.BucketRows.{
  map-take, map-drop, All-map, All-imp, counter_times, last_counter_time-last_or,
}

abbrev pub add_counter_buckets : Pending → List CounterBucket → Pending
add_counter_buckets out bs = record out {
  counters = record (out.counters) { buckets = out.counters.buckets ++ bs };
}

times_fit : (bs : List CounterBucket) → All IsCounterBucket bs → All IsU64 (counter_times bs)
times_fit bs h =
    All-map (λ b. b.time) IsU64 bs
      (All-imp IsCounterBucket (λ b. IsU64 b.time) (λ b v. v.time_fits) bs h)

module _ (s2 : Compressor) (lossless : IsLossless s2) where
  counter_bucket_chunk-Writes :
      (n : ℕ) (b : CounterBucket) (bs : List CounterBucket) (dst : List ℕ) (out : Pending)
      → 0 < n
      → n ≤ segment_size
      → n ≤ length (b ∷ bs)
      → All IsCounterBucket (b ∷ bs)
      → IsAscending (counter_times (b ∷ bs))
      → let part = take n (b ∷ bs) in
        Writes s2
          (append_segment s2 dst segment_counter_buckets b.time
            (last_counter_time b.time part)
            n
            (append_counter_buckets [] part))
          dst
          out
          (add_counter_buckets out part)
  counter_bucket_chunk-Writes n b bs dst out p q r v a =
      let part : List CounterBucket = take n (b ∷ bs) in
      let body = counter_bucket_bytes 0 0 part in
      let fits = All-take IsCounterBucket n (b ∷ bs) v in
      let size : length part ≡ n = omega (arith, length-take n (b ∷ bs)) in
      rw
        (
          append_counter_buckets-bytes [] part,
          last_counter_time-last_or b.time part,
          map-take (λ (x : CounterBucket). x.time) n (b ∷ bs),
        )
        (Writes-counter_buckets s2 lossless dst b.time
          (last_or b.time (take n (counter_times (b ∷ bs)))) n body out
          (chunk-IsBlock segment_counter_buckets n b.time (counter_times bs) body refl p q
            (times_fit (b ∷ bs) v) a (omega (arith, length-counter_bucket_bytes 0 0 part)))
          (rw size at (decode_counter_buckets-body part out.counters fits)))

  pub append_counter_bucket_segments_loop-Writes :
      (k : ℕ) (bs : List CounterBucket) (dst : List ℕ) (out : Pending)
      → length bs ≤ k
      → All IsCounterBucket bs
      → IsAscending (counter_times bs)
      → Writes s2
          (append_counter_bucket_segments_loop s2 k bs dst)
          dst
          out
          (add_counter_buckets out bs)
  unfolding append_counter_bucket_segments_loop
  append_counter_bucket_segments_loop-Writes zero [] dst out h v a =
      rw append-nil (Writes-refl s2 dst out)
  append_counter_bucket_segments_loop-Writes (suc k) [] dst out h v a =
      rw append-nil (Writes-refl s2 dst out)
  append_counter_bucket_segments_loop-Writes zero (b ∷ bs) dst out h v a = absurd (omega arith)
  append_counter_bucket_segments_loop-Writes (suc k) (b ∷ bs) dst out h v a =
      let n : ℕ = min (length (b ∷ bs)) segment_size in
      rw (← split out n (b ∷ bs)) (
        Writes-trans s2 dst _ _ out _ _
          (counter_bucket_chunk-Writes n b bs dst out (omega arith) (omega arith) (omega arith) v a)
          (append_counter_bucket_segments_loop-Writes k (drop n (b ∷ bs)) _ _
            (omega (arith, length-drop n (b ∷ bs))) (All-drop IsCounterBucket n (b ∷ bs) v)
            (rw (map-drop (λ (x : CounterBucket). x.time) n (b ∷ bs))
              (IsAscending-drop n (counter_times (b ∷ bs)) a))))
    where
      split :
          (o : Pending) (m : ℕ) (cs : List CounterBucket)
          → add_counter_buckets (add_counter_buckets o (take m cs)) (drop m cs)
            ≡ add_counter_buckets o cs
      split o m cs = simp (append_assoc, take-append-drop)
