-- ===== src/Codec/RoundTrip.antt =====
-- `appendTo` and `pending` of codec.go on an empty series.
use trend.Prelude.{ℕ, ◌≡◌, refl, ap, ◌∙◌, arith, none, false, Option}
use trend.Prelude.{List, [], ◌∷◌, ◌++◌, append-nil, length, All}
use trend.Data.{Pending, no_pending}
use trend.Codec.Reader.{Error}
use trend.Codec.Segment.{version, Compressor, IsLossless, scan}
use trend.Codec.Block.{any_not_finite}
use trend.Codec.Segments.{
  append_sample_segments, append_counter_segments, append_sketch_segments,
  append_sample_bucket_segments, append_counter_bucket_segments, append_sketch_bucket_segments,
}
use trend.Codec.Series.{ok, append_segments, append_to, pending_yield, pending}
use trend.Codec.Scan.{scan_from, scan_from-nil}
use trend.Codec.Bodies.{IsSampleRows, IsCounterRows}
use trend.Codec.Buckets.{IsSampleBucket, IsCounterBucket}
use trend.Codec.SketchBlock.{IsSketchBucket}
use trend.Codec.Writes.{IsAscending, Writes, Writes-trans}
use trend.Codec.BucketRows.{sample_times, counter_times, sketch_times}
use trend.Codec.Rows.Samples.{add_samples, append_sample_segments_loop-Writes}
use trend.Codec.Rows.Counters.{add_counters, append_counter_segments_loop-Writes}
use trend.Codec.Rows.Sketches.{add_sketches, append_sketch_segments_loop-Writes}
use trend.Codec.BucketRows.Samples.{add_sample_buckets, append_sample_bucket_segments_loop-Writes}
use trend.Codec.BucketRows.Counters.{
  add_counter_buckets, append_counter_bucket_segments_loop-Writes,
}
use trend.Codec.BucketRows.Sketches.{add_sketch_buckets, append_sketch_bucket_segments_loop-Writes}

-- A state that `append` writes: columns of one length, in the order of their times, with values
-- that fit their Go types and sketch observations that are finite.
pub record IsStorable (p : Pending) : Type 0 where
  pub sample_rows :
      IsSampleRows
        (length p.samples.time)
        p.samples.time
        p.samples.values
        p.samples.clock
        p.samples.replica
  pub sample_order : IsAscending p.samples.time
  pub sample_buckets : All IsSampleBucket p.samples.buckets
  pub sample_bucket_order : IsAscending (sample_times p.samples.buckets)
  pub counter_rows :
      IsCounterRows
        (length p.counters.time)
        p.counters.time
        p.counters.replica
        p.counters.clock
        p.counters.value
  pub counter_order : IsAscending p.counters.time
  pub counter_buckets : All IsCounterBucket p.counters.buckets
  pub counter_bucket_order : IsAscending (counter_times p.counters.buckets)
  pub sketch_rows :
      IsSampleRows
        (length p.sketches.time)
        p.sketches.time
        p.sketches.values
        p.sketches.clock
        p.sketches.replica
  pub sketch_order : IsAscending p.sketches.time
  pub sketch_finite : any_not_finite p.sketches.values ≡ false
  pub sketch_buckets : All IsSketchBucket p.sketches.buckets
  pub sketch_bucket_order : IsAscending (sketch_times p.sketches.buckets)

-- The columns and buckets of `p` behind those of `out`.
unfoldable pub concat : Pending → Pending → Pending
concat out p = record {
  samples = record {
    time = out.samples.time ++ p.samples.time;
    values = out.samples.values ++ p.samples.values;
    clock = out.samples.clock ++ p.samples.clock;
    replica = out.samples.replica ++ p.samples.replica;
    buckets = out.samples.buckets ++ p.samples.buckets;
  };
  counters = record {
    time = out.counters.time ++ p.counters.time;
    replica = out.counters.replica ++ p.counters.replica;
    clock = out.counters.clock ++ p.counters.clock;
    value = out.counters.value ++ p.counters.value;
    buckets = out.counters.buckets ++ p.counters.buckets;
  };
  sketches = record {
    time = out.sketches.time ++ p.sketches.time;
    values = out.sketches.values ++ p.sketches.values;
    clock = out.sketches.clock ++ p.sketches.clock;
    replica = out.sketches.replica ++ p.sketches.replica;
    buckets = out.sketches.buckets ++ p.sketches.buckets;
  };
}

module _ (s2 : Compressor) (lossless : IsLossless s2) where
  module _ (p : Pending) (v : IsStorable p) (dst : List ℕ) (out : Pending) where
    samples-Writes :
        Writes s2
          (append_sample_segments s2
            (append_sample_bucket_segments s2 dst p.samples.buckets)
            p.samples)
          dst
          out
          (add_samples
            (add_sample_buckets out p.samples.buckets)
            p.samples.time
            p.samples.values
            p.samples.clock
            p.samples.replica)
    unfolding append_sample_segments append_sample_bucket_segments
    samples-Writes =
        Writes-trans s2 dst _ _ out _ _
          (append_sample_bucket_segments_loop-Writes s2 lossless (length p.samples.buckets)
            p.samples.buckets dst out (omega arith) v.sample_buckets v.sample_bucket_order)
          (append_sample_segments_loop-Writes s2 lossless p.samples.buckets (length p.samples.time)
            p.samples.time p.samples.values p.samples.clock p.samples.replica _ _ (omega arith)
            v.sample_rows v.sample_order)

    counters-Writes :
        Writes s2
          (append_counter_segments s2
            (append_counter_bucket_segments s2 dst p.counters.buckets)
            p.counters)
          dst
          out
          (add_counters
            (add_counter_buckets out p.counters.buckets)
            p.counters.time
            p.counters.replica
            p.counters.clock
            p.counters.value)
    unfolding append_counter_segments append_counter_bucket_segments
    counters-Writes =
        Writes-trans s2 dst _ _ out _ _
          (append_counter_bucket_segments_loop-Writes s2 lossless (length p.counters.buckets)
            p.counters.buckets dst out (omega arith) v.counter_buckets v.counter_bucket_order)
          (append_counter_segments_loop-Writes s2 lossless p.counters.buckets
            (length p.counters.time) p.counters.time p.counters.replica p.counters.clock
            p.counters.value _ _ (omega arith) v.counter_rows v.counter_order)

    sketches-Writes :
        Writes s2
          (append_sketch_segments s2
            (append_sketch_bucket_segments s2 dst p.sketches.buckets)
            p.sketches)
          dst
          out
          (add_sketches
            (add_sketch_buckets out p.sketches.buckets)
            p.sketches.time
            p.sketches.values
            p.sketches.clock
            p.sketches.replica)
    unfolding append_sketch_segments append_sketch_bucket_segments
    sketches-Writes =
        Writes-trans s2 dst _ _ out _ _
          (append_sketch_bucket_segments_loop-Writes s2 lossless (length p.sketches.buckets)
            p.sketches.buckets dst out (omega arith) v.sketch_buckets v.sketch_bucket_order)
          (append_sketch_segments_loop-Writes s2 lossless p.sketches.buckets
            (length p.sketches.time) p.sketches.time p.sketches.values p.sketches.clock
            p.sketches.replica _ _ (omega arith) v.sketch_rows v.sketch_order v.sketch_finite)

  pub append_segments-Writes :
      (p : Pending) (dst : List ℕ) (out : Pending)
      → IsStorable p
      → Writes s2 (append_segments s2 dst p) dst out (concat out p)
  unfolding append_segments concat
  append_segments-Writes p dst out v =
      Writes-trans s2 dst _ _ out _ _ (samples-Writes p v dst out)
        (Writes-trans s2 _ _ _ _ _ _ (counters-Writes p v _ _) (sketches-Writes p v _ _))

module _ (s2 : Compressor) where
  pub scan-version :
      (bs : List ℕ) (t : Pending × Option Error)
      → scan (pending_yield s2) (version ∷ bs) t ≡ scan_from (pending_yield s2) bs t
  unfolding scan scan_from
  scan-version bs t = refl

  pub pending_of_scan :
      (s : List ℕ) {out : Pending}
      → scan (pending_yield s2) s (no_pending, none) ≡ ((out, none), none)
      → pending s2 s ≡ ok out
  unfolding pending
  pending_of_scan s h = ground (arith, h)

module _ (s2 : Compressor) (lossless : IsLossless s2) (p : Pending) (v : IsStorable p) where
  -- With a lossless compressor, a storable state is written to an empty slice without an error, and
  -- the bytes written are read back as the state.
  pub pending-append_to : (bs : List ℕ) × (append_to s2 p [] ≡ ok bs) × (pending s2 bs ≡ ok p)
  unfolding append_to concat
  pending-append_to =
      let (bs, e, h) = append_segments-Writes s2 lossless p (version ∷ []) no_pending v in
      (
        append_segments s2 (version ∷ []) p,
        refl,
        pending_of_scan s2 (append_segments s2 (version ∷ []) p) (
            ap (λ t. scan (pending_yield s2) t (no_pending, none)) e
            ∙ scan-version s2 bs (no_pending, none)
            ∙ (rw append-nil at (h []))
            ∙ scan_from-nil (pending_yield s2) (p, none)),
      )
