-- ===== src/Reads/SketchLaws.antt =====
-- The protocol between `sketchRange` of sketches.go and the reader's function.
use trend.Prelude.{ℕ, zero, suc, arith, inl, Bool, true, false, Option, none, some}
use trend.Prelude.{List, [], ◌∷◌}
use trend.Float.{Float64, Arith}
use trend.Maps.{get_or, sorted_times}
use trend.Codec.Reader.{Error, Reader, ready}
use trend.Codec.Segment.{Compressor, decode_into, scan}
use trend.Codec.Block.{scan_sketch_buckets_loop, scan_sketch_buckets, sketch_entry}
use trend.Sketches.Value.{no_value, Math}
use trend.Sketches.Handle.{Sketch, encode, stored_sketch}
use trend.Codec.Series.{ok, err}
use trend.Reads.Invariant.{Ends, Keeps, scan-Ends}
use trend.Reads.RawLaws.{sketch_raw_range-Ends}
use trend.Reads.Sketches.{
  kinds_yield, raw_sketch, sketch_raw_range, bucket_step, bucket_yield, sketch_bucket_values,
  Values, yield_values, mixed_yield, sketch_mixed_range, sketch_range,
}

module _ {S : Type 0} (I : S → Bool → Type 0) (s2 : Compressor) (lib : Math) (fp : Arith)
    (sort : List Float64 → List Float64) (from to span : ℕ) (yield : ℕ → Sketch → S → S × Bool)
    (keeps : (t : ℕ) (h : Sketch) (s : S) → I s true → I (yield t h s).0 (yield t h s).1) where
  raw_range-Ends :
      (series : List ℕ) (s : S)
      → I s true
      → Ends I (sketch_raw_range s2 lib fp sort from to span yield series s).0
  raw_range-Ends series s h =
      sketch_raw_range-Ends I s2 lib fp sort from to span yield (λ st. Unit {0}) (λ t v st n j. tt)
        (λ s st j. tt)
        (λ st j c k. keeps st.current (raw_sketch s2 lib fp sort from to span yield st) st.s k)
        (λ s. tt) series s h

  -- A block goes on without an error alone.
  abbrev OfBlock : (S × Bool) × Option Error → Type 0
  OfBlock (st, none) = I st.0 true
  OfBlock (st, some e) = Ends I st.0

  bucket_step-OfBlock :
      (t : ℕ) (encoded : List ℕ) (st : S × Bool)
      → I st.0 true
      → OfBlock (bucket_step s2 lib fp sort from to span yield t encoded st)
  unfolding bucket_step
  bucket_step-OfBlock t encoded st h =
      let stored : Sketch = elim (stored_sketch encoded) [
        | err e ↦ encode sort no_value
        | ok x ↦ x
      ] in
      ground (arith, h, keeps t stored st.0 h)

  bucket_loop-OfBlock :
      (n previous : ℕ) (r : Reader) (st : S × Bool)
      → I st.0 true
      → OfBlock
          (scan_sketch_buckets_loop (bucket_step s2 lib fp sort from to span yield) n previous r st)
  unfolding scan_sketch_buckets_loop
  bucket_loop-OfBlock zero previous r st h = ground (arith, h)
  bucket_loop-OfBlock (suc n) previous r st h =
      let ((t, block), r') = sketch_entry previous r in
      let st' = (bucket_step s2 lib fp sort from to span yield t block st).0 in
      ground (arith, h, bucket_step-OfBlock t block st h, bucket_loop-OfBlock n t r' st')

  abbrev OfBuckets : (S × Bool) × Option Error → Bool → Type 0
  OfBuckets st true = I st.0.0 true
  OfBuckets st false = Ends I st.0.0

  bucket_yield-Keeps : Keeps OfBuckets (bucket_yield s2 lib fp sort from to span yield)
  unfolding bucket_yield scan_sketch_buckets
  bucket_yield-Keeps seg st h =
      let raw = (decode_into s2 seg).0 in
      ground (arith, h, bucket_loop-OfBlock seg.count 0 (ready raw) st.0 h)

  bucket_values-Ends :
      (capacity : ℕ) (series : List ℕ) (s : S)
      → I s true
      → Ends I (sketch_bucket_values s2 lib fp sort from to span yield capacity series s).0
  unfolding sketch_bucket_values
  bucket_values-Ends capacity series s h = ground (
    arith,
    h,
    scan-Ends OfBuckets (bucket_yield s2 lib fp sort from to span yield) bucket_yield-Keeps series
        ((s, false), none) h,
  )

  yield_values-Ends :
      (m : Values s2 lib fp sort from to span yield) (ts : List ℕ) (s : S)
      → I s true
      → Ends I (yield_values s2 lib fp sort from to span yield m ts s)
  unfolding yield_values
  yield_values-Ends m [] s h = inl h
  yield_values-Ends m (t ∷ ts) s h =
      let v = encode sort (get_or m t no_value) in
      ground (arith, keeps t v s h, yield_values-Ends m ts (yield t v s).0)

  mixed_range-Ends :
      (series : List ℕ) (s : S)
      → I s true
      → Ends I (sketch_mixed_range s2 lib fp sort from to span yield series s).0
  unfolding sketch_mixed_range
  mixed_range-Ends series s h =
      let m = (scan (mixed_yield s2 lib fp sort from to span yield) series ([], none)).0.0 in
      ground (arith, h, yield_values-Ends m (sorted_times m) s h)

  -- Let a predicate `I` on the reader's state and on whether it wants more hold at the start, and let
  -- each call, made while the reader wants more, establish it for the answer. Then, whatever the
  -- bytes of a series are, it holds when `sketchRange` ends: the function is not called again once it
  -- said to stop.
  pub sketch_range-keeps :
      (series : List ℕ) (s : S)
      → I s true
      → Ends I (sketch_range s2 lib fp sort from to span yield series s).0
  unfolding sketch_range
  sketch_range-keeps series s h =
      let bytes = (scan (kinds_yield from to) series (false, (false, 0))).0.1.1 in
      ground (
        arith,
        h,
        raw_range-Ends series s h,
        bucket_values-Ends bytes series s h,
        mixed_range-Ends series s h,
      )
