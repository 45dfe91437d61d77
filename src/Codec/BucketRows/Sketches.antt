-- ===== src/Codec/BucketRows/Sketches.antt =====
-- The sketch bucket loop of block.go.
use trend.Prelude.{ℕ, zero, suc, ◌≤◌, ◌<◌, ◌≡◌, refl, arith, min}
use trend.Prelude.{
  List, [], ◌∷◌, ◌++◌, append-nil, append_assoc, length, length-take, length-drop, All, All-take,
  All-drop, take, drop, take-append-drop,
}
use trend.Data.{SketchBucket, Pending, IsU64}
use trend.Codec.Segment.{
  Compressor, IsLossless, append_segment, segment_size, segment_sketch_buckets,
}
use trend.Codec.Block.{append_sketch_buckets}
use trend.Codec.Segments.{last_or, last_sketch_time, append_sketch_bucket_segments_loop}
use trend.Codec.SketchBlock.{
  IsSketchBucket, sketch_bucket_bytes, append_sketch_buckets-bytes, length-sketch_bucket_bytes,
  decode_sketch_buckets-bytes,
}
use trend.Codec.Rows.{chunk-IsBlock}
use trend.Codec.Writes.{
  IsAscending, IsAscending-drop, Writes, Writes-refl, Writes-trans, Writes-sketch_buckets,
}
use trend.Codec.BucketRows.{
  map-take, map-drop, All-map, All-imp, sketch_times, last_sketch_time-last_or,
}

abbrev pub add_sketch_buckets : Pending → List SketchBucket → Pending
add_sketch_buckets out bs = record out {
  sketches = record (out.sketches) { buckets = out.sketches.buckets ++ bs };
}

times_fit : (bs : List SketchBucket) → All IsSketchBucket bs → All IsU64 (sketch_times bs)
times_fit bs h =
    All-map (λ b. b.time) IsU64 bs
      (All-imp IsSketchBucket (λ b. IsU64 b.time) (λ b v. v.time_fits) bs h)

module _ (s2 : Compressor) (lossless : IsLossless s2) where
  sketch_bucket_chunk-Writes :
      (n : ℕ) (b : SketchBucket) (bs : List SketchBucket) (dst : List ℕ) (out : Pending)
      → 0 < n
      → n ≤ segment_size
      → n ≤ length (b ∷ bs)
      → All IsSketchBucket (b ∷ bs)
      → IsAscending (sketch_times (b ∷ bs))
      → let part = take n (b ∷ bs) in
        Writes s2
          (append_segment s2 dst segment_sketch_buckets b.time
            (last_sketch_time b.time part)
            n
            (append_sketch_buckets [] part))
          dst
          out
          (add_sketch_buckets out part)
  sketch_bucket_chunk-Writes n b bs dst out p q r v a =
      let part : List SketchBucket = take n (b ∷ bs) in
      let body = sketch_bucket_bytes 0 part in
      let fits = All-take IsSketchBucket n (b ∷ bs) v in
      let size : length part ≡ n = omega (arith, length-take n (b ∷ bs)) in
      rw
        (
          append_sketch_buckets-bytes [] part,
          last_sketch_time-last_or b.time part,
          map-take (λ (x : SketchBucket). x.time) n (b ∷ bs),
        )
        (Writes-sketch_buckets s2 lossless dst b.time
          (last_or b.time (take n (sketch_times (b ∷ bs)))) n body out
          (chunk-IsBlock segment_sketch_buckets n b.time (sketch_times bs) body refl p q
            (times_fit (b ∷ bs) v) a (omega (arith, length-sketch_bucket_bytes 0 part fits)))
          (rw size at (decode_sketch_buckets-bytes part out.sketches fits)))

  pub append_sketch_bucket_segments_loop-Writes :
      (k : ℕ) (bs : List SketchBucket) (dst : List ℕ) (out : Pending)
      → length bs ≤ k
      → All IsSketchBucket bs
      → IsAscending (sketch_times bs)
      → Writes s2
          (append_sketch_bucket_segments_loop s2 k bs dst)
          dst
          out
          (add_sketch_buckets out bs)
  unfolding append_sketch_bucket_segments_loop
  append_sketch_bucket_segments_loop-Writes zero [] dst out h v a =
      rw append-nil (Writes-refl s2 dst out)
  append_sketch_bucket_segments_loop-Writes (suc k) [] dst out h v a =
      rw append-nil (Writes-refl s2 dst out)
  append_sketch_bucket_segments_loop-Writes zero (b ∷ bs) dst out h v a = absurd (omega arith)
  append_sketch_bucket_segments_loop-Writes (suc k) (b ∷ bs) dst out h v a =
      let n : ℕ = min (length (b ∷ bs)) segment_size in
      rw (← split out n (b ∷ bs)) (
        Writes-trans s2 dst _ _ out _ _
          (sketch_bucket_chunk-Writes n b bs dst out (omega arith) (omega arith) (omega arith) v a)
          (append_sketch_bucket_segments_loop-Writes k (drop n (b ∷ bs)) _ _
            (omega (arith, length-drop n (b ∷ bs))) (All-drop IsSketchBucket n (b ∷ bs) v)
            (rw (map-drop (λ (x : SketchBucket). x.time) n (b ∷ bs))
              (IsAscending-drop n (sketch_times (b ∷ bs)) a))))
    where
      split :
          (o : Pending) (m : ℕ) (cs : List SketchBucket)
          → add_sketch_buckets (add_sketch_buckets o (take m cs)) (drop m cs)
            ≡ add_sketch_buckets o cs
      split o m cs = simp (append_assoc, take-append-drop)
