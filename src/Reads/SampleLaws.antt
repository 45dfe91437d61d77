-- ===== src/Reads/SampleLaws.antt =====
-- The protocol of the sample reads: what they may call the reader's function with, and when.
use trend.Prelude.{ℕ, ◌≤◌, arith, Bool, true, none, List, [], ◌∷◌}
use trend.Float.{Float64, Arith}
use trend.Data.{SampleBucket}
use trend.Codec.Segment.{Compressor, scan}
use trend.Codec.Block.{decode_sample_values}
use trend.Reads.Samples.{each_value, each_bucket, fresh_buckets, values_yield, sample_values}
use trend.Reads.Invariant.{Ends, Keeps, scan-Ends, OfReader, visit_segment-Keeps, Ends-of}

module _ {S : Type 0} (s2 : Compressor) (fp : Arith) (from to : ℕ)
    (yield : ℕ → Float64 → S → S × Bool) (I : S → Bool → Type 0)
    (keeps : (t : ℕ) (v : Float64) (s : S)
      → from ≤ t
      → t ≤ to
      → I s true
      → I (yield t v s).0 (yield t v s).1) where
  each_value-Visits :
      (ts : List ℕ) (vs : List Float64) (s : S)
      → I s true
      → I (each_value s2 fp from to yield ts vs s).0 (each_value s2 fp from to yield ts vs s).1
  unfolding each_value
  each_value-Visits [] vs s h = h
  each_value-Visits (t ∷ ts) [] s h = h
  each_value-Visits (t ∷ ts) (v ∷ vs) s h =
      ground
        (arith, keeps t v s, h, each_value-Visits ts vs s, each_value-Visits ts vs (yield t v s).0)

  each_bucket-Visits :
      (bs : List SampleBucket) (s : S)
      → I s true
      → I (each_bucket s2 fp from to yield bs s).0 (each_bucket s2 fp from to yield bs s).1
  unfolding each_bucket
  each_bucket-Visits [] s h = h
  each_bucket-Visits (b ∷ bs) s h =
      let v = fp.div b.sum (fp.of_uint64 b.count) in
      ground (
        arith,
        keeps b.time v s,
        h,
        each_bucket-Visits bs s,
        each_bucket-Visits bs (yield b.time v s).0,
      )

  values_yield-Keeps : Keeps (OfReader I) (values_yield s2 fp from to yield)
  unfolding values_yield
  values_yield-Keeps seg st h = ground (
    arith,
    h,
    visit_segment-Keeps I s2 decode_sample_values
        (λ (ts, vs) s. each_value s2 fp from to yield ts vs s) from to seg st
        (λ (ts, vs) s k. each_value-Visits ts vs s k) h,
    visit_segment-Keeps I s2 fresh_buckets (each_bucket s2 fp from to yield) from to seg st
        each_bucket-Visits h,
  )

  -- Let a predicate `I` on the reader's state and on whether it wants more hold at the start, and let
  -- each call with a time from `from` to `to`, made while the reader wants more, establish it for
  -- the answer. Then, whatever the bytes of a series are, it holds when `sampleValues` ends: the
  -- function is called with no other time, and not again once it said to stop.
  pub sample_values-keeps :
      (series : List ℕ) (s : S) → I s true → Ends I (sample_values s2 fp from to yield series s).0
  unfolding sample_values
  sample_values-keeps series s h =
      Ends-of I (scan (values_yield s2 fp from to yield) series (s, none)).0 (
        scan-Ends (OfReader I) (values_yield s2 fp from to yield) values_yield-Keeps series
          (s, none) h)
