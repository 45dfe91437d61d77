-- ===== src/Codec/Segments.antt =====
-- The segment loops of block.go: a column or a list of buckets, cut into segments.
use trend.Prelude.{ℕ, zero, suc, min, List, [], ◌∷◌, length, take, drop}
use trend.Data.{SampleBucket, CounterBucket, SketchBucket, SampleData, CounterData, SketchData}
use trend.Codec.Block.{
  append_sample_raw, append_counter_raw, append_sample_buckets, append_counter_buckets,
  append_sketch_buckets,
}
use trend.Codec.Segment.{
  segment_size, segment_samples, segment_counters, segment_sample_buckets, segment_counter_buckets,
  segment_sketches, segment_sketch_buckets, Compressor, append_segment,
}

-- `times[n-1]` of a slice that is not empty.
unfoldable pub last_or : ℕ → List ℕ → ℕ
last_or d [] = d
last_or d (x ∷ xs) = last_or x xs

module _ (s2 : Compressor) where
  -- Each of the six loops takes at most `segment_size` entries a round. The number bounds the
  -- rounds; a round takes an entry at least, so the number of entries is enough. The slices have
  -- one length (`valid` is called before), so that `take` and `drop` cut them all.
  unfoldable pub append_sample_segments_loop : ℕ → SampleData → List ℕ → List ℕ
  append_sample_segments_loop zero d dst = dst
  append_sample_segments_loop (suc k) d dst = elim d.time [
    | [] ↦ dst
    | t ∷ ts ↦
        let n = min (length d.time) segment_size in
        let times = take n d.time in
        let raw =
          append_sample_raw [] times (take n d.values) (take n d.clock) (take n d.replica) in
        append_sample_segments_loop k
          (record d {
            time = drop n d.time;
            values = drop n d.values;
            clock = drop n d.clock;
            replica = drop n d.replica;
          })
          (append_segment s2 dst segment_samples t (last_or t times) n raw)
  ]

  unfoldable pub append_sample_segments : List ℕ → SampleData → List ℕ
  unfolding append_sample_segments_loop
  append_sample_segments dst d = append_sample_segments_loop (length d.time) d dst

  unfoldable pub append_counter_segments_loop : ℕ → CounterData → List ℕ → List ℕ
  append_counter_segments_loop zero d dst = dst
  append_counter_segments_loop (suc k) d dst = elim d.time [
    | [] ↦ dst
    | t ∷ ts ↦
        let n = min (length d.time) segment_size in
        let times = take n d.time in
        let raw =
          append_counter_raw [] times (take n d.replica) (take n d.clock) (take n d.value) in
        append_counter_segments_loop k
          (record d {
            time = drop n d.time;
            value = drop n d.value;
            replica = drop n d.replica;
            clock = drop n d.clock;
          })
          (append_segment s2 dst segment_counters t (last_or t times) n raw)
  ]

  unfoldable pub append_counter_segments : List ℕ → CounterData → List ℕ
  unfolding append_counter_segments_loop
  append_counter_segments dst d = append_counter_segments_loop (length d.time) d dst

  unfoldable pub append_sketch_segments_loop : ℕ → SketchData → List ℕ → List ℕ
  append_sketch_segments_loop zero d dst = dst
  append_sketch_segments_loop (suc k) d dst = elim d.time [
    | [] ↦ dst
    | t ∷ ts ↦
        let n = min (length d.time) segment_size in
        let times = take n d.time in
        let raw =
          append_sample_raw [] times (take n d.values) (take n d.clock) (take n d.replica) in
        append_sketch_segments_loop k
          (record d {
            time = drop n d.time;
            values = drop n d.values;
            clock = drop n d.clock;
            replica = drop n d.replica;
          })
          (append_segment s2 dst segment_sketches t (last_or t times) n raw)
  ]

  unfoldable pub append_sketch_segments : List ℕ → SketchData → List ℕ
  unfolding append_sketch_segments_loop
  append_sketch_segments dst d = append_sketch_segments_loop (length d.time) d dst

-- The time of the last bucket of a slice that begins at `t`.
unfoldable pub last_sample_time : ℕ → List SampleBucket → ℕ
last_sample_time t [] = t
last_sample_time t (b ∷ bs) = last_sample_time b.time bs

unfoldable pub last_counter_time : ℕ → List CounterBucket → ℕ
last_counter_time t [] = t
last_counter_time t (b ∷ bs) = last_counter_time b.time bs

unfoldable pub last_sketch_time : ℕ → List SketchBucket → ℕ
last_sketch_time t [] = t
last_sketch_time t (b ∷ bs) = last_sketch_time b.time bs

module _ (s2 : Compressor) where
  unfoldable pub append_sample_bucket_segments_loop : ℕ → List SampleBucket → List ℕ → List ℕ
  append_sample_bucket_segments_loop zero bs dst = dst
  append_sample_bucket_segments_loop (suc k) [] dst = dst
  append_sample_bucket_segments_loop (suc k) (b ∷ bs) dst =
      let n = min (length (b ∷ bs)) segment_size in
      let chunk = take n (b ∷ bs) in
      let raw = append_sample_buckets [] chunk in
      let to = last_sample_time b.time chunk in
      append_sample_bucket_segments_loop k (drop n (b ∷ bs))
        (append_segment s2 dst segment_sample_buckets b.time to n raw)

  unfoldable pub append_sample_bucket_segments : List ℕ → List SampleBucket → List ℕ
  unfolding append_sample_bucket_segments_loop
  append_sample_bucket_segments dst bs = append_sample_bucket_segments_loop (length bs) bs dst

  unfoldable pub append_counter_bucket_segments_loop : ℕ → List CounterBucket → List ℕ → List ℕ
  append_counter_bucket_segments_loop zero bs dst = dst
  append_counter_bucket_segments_loop (suc k) [] dst = dst
  append_counter_bucket_segments_loop (suc k) (b ∷ bs) dst =
      let n = min (length (b ∷ bs)) segment_size in
      let chunk = take n (b ∷ bs) in
      let raw = append_counter_buckets [] chunk in
      let to = last_counter_time b.time chunk in
      append_counter_bucket_segments_loop k (drop n (b ∷ bs))
        (append_segment s2 dst segment_counter_buckets b.time to n raw)

  unfoldable pub append_counter_bucket_segments : List ℕ → List CounterBucket → List ℕ
  unfolding append_counter_bucket_segments_loop
  append_counter_bucket_segments dst bs = append_counter_bucket_segments_loop (length bs) bs dst

  unfoldable pub append_sketch_bucket_segments_loop : ℕ → List SketchBucket → List ℕ → List ℕ
  append_sketch_bucket_segments_loop zero bs dst = dst
  append_sketch_bucket_segments_loop (suc k) [] dst = dst
  append_sketch_bucket_segments_loop (suc k) (b ∷ bs) dst =
      let n = min (length (b ∷ bs)) segment_size in
      let chunk = take n (b ∷ bs) in
      let raw = append_sketch_buckets [] chunk in
      let to = last_sketch_time b.time chunk in
      append_sketch_bucket_segments_loop k (drop n (b ∷ bs))
        (append_segment s2 dst segment_sketch_buckets b.time to n raw)

  unfoldable pub append_sketch_bucket_segments : List ℕ → List SketchBucket → List ℕ
  unfolding append_sketch_bucket_segments_loop
  append_sketch_bucket_segments dst bs = append_sketch_bucket_segments_loop (length bs) bs dst
