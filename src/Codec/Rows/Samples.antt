-- ===== src/Codec/Rows/Samples.antt =====
-- The sample loop of block.go and `pending` on the segments it writes.
use trend.Prelude.{ℕ, zero, suc, ◌≤◌, ◌≡◌, refl, arith}
use trend.Prelude.{
  List, [], ◌∷◌, ◌++◌, append-nil, append_assoc, length, take, drop, length-drop, take-append-drop,
}
use trend.Float.{Float64}
use trend.Data.{SampleData, Pending, SampleBucket}
use trend.Codec.Segment.{Compressor, IsLossless, append_segment, segment_samples}
use trend.Codec.Block.{append_sample_raw}
use trend.Codec.Segments.{last_or, append_sample_segments_loop}
use trend.Codec.Bodies.{
  IsSampleRows, sample_body, append_sample_raw-body, sample_body-fits, decode_samples-body,
}
use trend.Codec.Writes.{
  IsAscending, IsAscending-drop, Writes, Writes-refl, Writes-trans, Writes-samples,
}
use trend.Codec.Rows.{chunk, chunk-IsBlock, nil_of_length, IsSampleRows-take, IsSampleRows-drop}

abbrev pub add_samples : Pending → List ℕ → List Float64 → List ℕ → List ℕ → Pending
add_samples out time values clock replica = record out {
  samples = record (out.samples) {
    time = out.samples.time ++ time;
    values = out.samples.values ++ values;
    clock = out.samples.clock ++ clock;
    replica = out.samples.replica ++ replica;
  };
}

add_samples-nil :
    (out : Pending) (values : List Float64) (clock replica : List ℕ)
    → IsSampleRows 0 [] values clock replica
    → add_samples out [] values clock replica ≡ out
add_samples-nil out values clock replica v =
    rw
      (
        nil_of_length values v.values_length,
        nil_of_length clock v.clock_length,
        nil_of_length replica v.replica_length,
      )
      (simp append-nil)

add_samples-split :
    (n : ℕ) (out : Pending) (time : List ℕ) (values : List Float64) (clock replica : List ℕ)
    → add_samples
        (add_samples out (take n time) (take n values) (take n clock) (take n replica))
        (drop n time)
        (drop n values)
        (drop n clock)
        (drop n replica)
      ≡ add_samples out time values clock replica
add_samples-split n out time values clock replica = simp (append_assoc, take-append-drop)

module _ (s2 : Compressor) (lossless : IsLossless s2) (bs : List SampleBucket) where
  abbrev samples_at : List ℕ → List Float64 → List ℕ → List ℕ → SampleData
  samples_at time values clock replica = record {
    time = time;
    values = values;
    clock = clock;
    replica = replica;
    buckets = bs;
  }

  sample_chunk-Writes :
      (t : ℕ) (ts : List ℕ) (values : List Float64) (clock replica dst : List ℕ) (out : Pending)
      → IsSampleRows (length (t ∷ ts)) (t ∷ ts) values clock replica
      → IsAscending (t ∷ ts)
      → let n = chunk (t ∷ ts) in
        let times = take n (t ∷ ts) in
        Writes s2
          (append_segment s2 dst segment_samples t
            (last_or t times)
            n
            (append_sample_raw [] times (take n values) (take n clock) (take n replica)))
          dst
          out
          (add_samples out times (take n values) (take n clock) (take n replica))
  sample_chunk-Writes t ts values clock replica dst out v a =
      let n : ℕ = chunk (t ∷ ts) in
      let times : List ℕ = take n (t ∷ ts) in
      let w = IsSampleRows-take (t ∷ ts) values clock replica v n (omega arith) in
      let body = sample_body n times (take n values) (take n clock) (take n replica) in
      rw (append_sample_raw-body n times (take n values) (take n clock) (take n replica)) (
        Writes-samples s2 lossless dst t (last_or t times) n body out
          (chunk-IsBlock segment_samples n t ts body refl (omega arith) (omega arith) v.time_fits a
            (omega
              (arith, sample_body-fits n times (take n values) (take n clock) (take n replica) w)))
          (decode_samples-body n times (take n values) (take n clock) (take n replica) w
            out.samples))

  pub append_sample_segments_loop-Writes :
      (k : ℕ) (time : List ℕ) (values : List Float64) (clock replica dst : List ℕ) (out : Pending)
      → length time ≤ k
      → IsSampleRows (length time) time values clock replica
      → IsAscending time
      → Writes s2
          (append_sample_segments_loop s2 k (samples_at time values clock replica) dst)
          dst
          out
          (add_samples out time values clock replica)
  unfolding append_sample_segments_loop
  append_sample_segments_loop-Writes zero [] values clock replica dst out h v a =
      rw (add_samples-nil out values clock replica v) (Writes-refl s2 dst out)
  append_sample_segments_loop-Writes (suc k) [] values clock replica dst out h v a =
      rw (add_samples-nil out values clock replica v) (Writes-refl s2 dst out)
  append_sample_segments_loop-Writes zero (t ∷ ts) values clock replica dst out h v a =
      absurd (omega arith)
  append_sample_segments_loop-Writes (suc k) (t ∷ ts) values clock replica dst out h v a =
      let n : ℕ = chunk (t ∷ ts) in
      rw (← add_samples-split n out (t ∷ ts) values clock replica) (
        Writes-trans s2 dst _ _ out _ _ (sample_chunk-Writes t ts values clock replica dst out v a)
          (append_sample_segments_loop-Writes k (drop n (t ∷ ts)) (drop n values) (drop n clock)
            (drop n replica) _ _ (omega (arith, length-drop n (t ∷ ts)))
            (IsSampleRows-drop (t ∷ ts) values clock replica v n) (IsAscending-drop n (t ∷ ts) a)))
