-- ===== src/Codec/BucketRows/Samples.antt =====
-- The sample bucket loop of block.go.
use trend.Prelude.{ℕ, zero, suc, ◌≤◌, ◌<◌, ◌≡◌, refl, arith, min}
use trend.Prelude.{
  List, [], ◌∷◌, ◌++◌, append-nil, append_assoc, length, length-take, length-drop, All, All-take,
  All-drop, take, drop, take-append-drop,
}
use trend.Data.{SampleBucket, Pending, IsU64}
use trend.Codec.Segment.{
  Compressor, IsLossless, append_segment, segment_size, segment_sample_buckets,
}
use trend.Codec.Block.{no_delta, append_sample_buckets}
use trend.Codec.Segments.{last_or, last_sample_time, append_sample_bucket_segments_loop}
use trend.Codec.Buckets.{
  IsSampleBucket, sample_bucket_bytes, append_sample_buckets-bytes, length-sample_bucket_bytes,
}
use trend.Codec.Bodies.{decode_sample_buckets-body}
use trend.Codec.Rows.{chunk-IsBlock}
use trend.Codec.Writes.{
  IsAscending, IsAscending-drop, Writes, Writes-refl, Writes-trans, Writes-sample_buckets,
}
use trend.Codec.BucketRows.{
  map-take, map-drop, All-map, All-imp, sample_times, last_sample_time-last_or,
}

abbrev pub add_sample_buckets : Pending → List SampleBucket → Pending
add_sample_buckets out bs = record out {
  samples = record (out.samples) { buckets = out.samples.buckets ++ bs };
}

times_fit : (bs : List SampleBucket) → All IsSampleBucket bs → All IsU64 (sample_times bs)
times_fit bs h =
    All-map (λ b. b.time) IsU64 bs
      (All-imp IsSampleBucket (λ b. IsU64 b.time) (λ b v. v.time_fits) bs h)

module _ (s2 : Compressor) (lossless : IsLossless s2) where
  sample_bucket_chunk-Writes :
      (n : ℕ) (b : SampleBucket) (bs : List SampleBucket) (dst : List ℕ) (out : Pending)
      → 0 < n
      → n ≤ segment_size
      → n ≤ length (b ∷ bs)
      → All IsSampleBucket (b ∷ bs)
      → IsAscending (sample_times (b ∷ bs))
      → let part = take n (b ∷ bs) in
        Writes s2
          (append_segment s2 dst segment_sample_buckets b.time
            (last_sample_time b.time part)
            n
            (append_sample_buckets [] part))
          dst
          out
          (add_sample_buckets out part)
  sample_bucket_chunk-Writes n b bs dst out p q r v a =
      let part : List SampleBucket = take n (b ∷ bs) in
      let body = sample_bucket_bytes no_delta part in
      let fits = All-take IsSampleBucket n (b ∷ bs) v in
      let size : length part ≡ n = omega (arith, length-take n (b ∷ bs)) in
      rw
        (
          append_sample_buckets-bytes [] part,
          last_sample_time-last_or b.time part,
          map-take (λ (x : SampleBucket). x.time) n (b ∷ bs),
        )
        (Writes-sample_buckets s2 lossless dst b.time
          (last_or b.time (take n (sample_times (b ∷ bs)))) n body out
          (chunk-IsBlock segment_sample_buckets n b.time (sample_times bs) body refl p q
            (times_fit (b ∷ bs) v) a (omega (arith, length-sample_bucket_bytes no_delta part)))
          (rw size at (decode_sample_buckets-body part out.samples fits)))

  pub append_sample_bucket_segments_loop-Writes :
      (k : ℕ) (bs : List SampleBucket) (dst : List ℕ) (out : Pending)
      → length bs ≤ k
      → All IsSampleBucket bs
      → IsAscending (sample_times bs)
      → Writes s2
          (append_sample_bucket_segments_loop s2 k bs dst)
          dst
          out
          (add_sample_buckets out bs)
  unfolding append_sample_bucket_segments_loop
  append_sample_bucket_segments_loop-Writes zero [] dst out h v a =
      rw append-nil (Writes-refl s2 dst out)
  append_sample_bucket_segments_loop-Writes (suc k) [] dst out h v a =
      rw append-nil (Writes-refl s2 dst out)
  append_sample_bucket_segments_loop-Writes zero (b ∷ bs) dst out h v a = absurd (omega arith)
  append_sample_bucket_segments_loop-Writes (suc k) (b ∷ bs) dst out h v a =
      let n : ℕ = min (length (b ∷ bs)) segment_size in
      rw (← split out n (b ∷ bs)) (
        Writes-trans s2 dst _ _ out _ _
          (sample_bucket_chunk-Writes n b bs dst out (omega arith) (omega arith) (omega arith) v a)
          (append_sample_bucket_segments_loop-Writes k (drop n (b ∷ bs)) _ _
            (omega (arith, length-drop n (b ∷ bs))) (All-drop IsSampleBucket n (b ∷ bs) v)
            (rw (map-drop (λ (x : SampleBucket). x.time) n (b ∷ bs))
              (IsAscending-drop n (sample_times (b ∷ bs)) a))))
    where
      split :
          (o : Pending) (m : ℕ) (cs : List SampleBucket)
          → add_sample_buckets (add_sample_buckets o (take m cs)) (drop m cs)
            ≡ add_sample_buckets o cs
      split o m cs = simp (append_assoc, take-append-drop)
