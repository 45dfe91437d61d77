-- ===== src/Codec/Rows/Sketches.antt =====
-- The sketch loop of block.go and `pending` on the segments it writes.
use trend.Prelude.{ℕ, zero, suc, ◌≤◌, ◌≡◌, refl, arith, false}
use trend.Prelude.{
  List, [], ◌∷◌, ◌++◌, append-nil, append_assoc, length, take, drop, length-drop, take-append-drop,
}
use trend.Float.{Float64}
use trend.Data.{SketchData, Pending, SketchBucket}
use trend.Codec.Segment.{Compressor, IsLossless, append_segment, segment_sketches}
use trend.Codec.Block.{any_not_finite, append_sample_raw}
use trend.Codec.Segments.{last_or, append_sketch_segments_loop}
use trend.Codec.Bodies.{
  IsSampleRows, sample_body, append_sample_raw-body, sample_body-fits, decode_sketches-body,
}
use trend.Codec.Writes.{
  IsAscending, IsAscending-drop, Writes, Writes-refl, Writes-trans, Writes-sketches,
}
use trend.Codec.Rows.{chunk, chunk-IsBlock, nil_of_length, IsSampleRows-take, IsSampleRows-drop}

any_not_finite-take :
    (n : ℕ) (vs : List Float64) → any_not_finite vs ≡ false → any_not_finite (take n vs) ≡ false
unfolding any_not_finite
any_not_finite-take zero vs h = refl
any_not_finite-take (suc n) [] h = refl
any_not_finite-take (suc n) (v ∷ vs) h = ground (arith, any_not_finite-take n vs)

any_not_finite-drop :
    (n : ℕ) (vs : List Float64) → any_not_finite vs ≡ false → any_not_finite (drop n vs) ≡ false
unfolding any_not_finite
any_not_finite-drop zero vs h = h
any_not_finite-drop (suc n) [] h = refl
any_not_finite-drop (suc n) (v ∷ vs) h = any_not_finite-drop n vs (ground arith)

abbrev pub add_sketches : Pending → List ℕ → List Float64 → List ℕ → List ℕ → Pending
add_sketches out time values clock replica = record out {
  sketches = record (out.sketches) {
    time = out.sketches.time ++ time;
    values = out.sketches.values ++ values;
    clock = out.sketches.clock ++ clock;
    replica = out.sketches.replica ++ replica;
  };
}

add_sketches-nil :
    (out : Pending) (values : List Float64) (clock replica : List ℕ)
    → IsSampleRows 0 [] values clock replica
    → add_sketches out [] values clock replica ≡ out
add_sketches-nil out values clock replica v =
    rw
      (
        nil_of_length values v.values_length,
        nil_of_length clock v.clock_length,
        nil_of_length replica v.replica_length,
      )
      (simp append-nil)

add_sketches-split :
    (n : ℕ) (out : Pending) (time : List ℕ) (values : List Float64) (clock replica : List ℕ)
    → add_sketches
        (add_sketches out (take n time) (take n values) (take n clock) (take n replica))
        (drop n time)
        (drop n values)
        (drop n clock)
        (drop n replica)
      ≡ add_sketches out time values clock replica
add_sketches-split n out time values clock replica = simp (append_assoc, take-append-drop)

module _ (s2 : Compressor) (lossless : IsLossless s2) (bs : List SketchBucket) where
  abbrev sketches_at : List ℕ → List Float64 → List ℕ → List ℕ → SketchData
  sketches_at time values clock replica = record {
    time = time;
    values = values;
    clock = clock;
    replica = replica;
    buckets = bs;
  }

  sketch_chunk-Writes :
      (t : ℕ) (ts : List ℕ) (values : List Float64) (clock replica dst : List ℕ) (out : Pending)
      → IsSampleRows (length (t ∷ ts)) (t ∷ ts) values clock replica
      → IsAscending (t ∷ ts)
      → any_not_finite values ≡ false
      → let n = chunk (t ∷ ts) in
        let times = take n (t ∷ ts) in
        Writes s2
          (append_segment s2 dst segment_sketches t
            (last_or t times)
            n
            (append_sample_raw [] times (take n values) (take n clock) (take n replica)))
          dst
          out
          (add_sketches out times (take n values) (take n clock) (take n replica))
  sketch_chunk-Writes t ts values clock replica dst out v a f =
      let n : ℕ = chunk (t ∷ ts) in
      let times : List ℕ = take n (t ∷ ts) in
      let w = IsSampleRows-take (t ∷ ts) values clock replica v n (omega arith) in
      let body = sample_body n times (take n values) (take n clock) (take n replica) in
      rw (append_sample_raw-body n times (take n values) (take n clock) (take n replica)) (
        Writes-sketches s2 lossless dst t (last_or t times) n body out
          (chunk-IsBlock segment_sketches n t ts body refl (omega arith) (omega arith) v.time_fits a
            (omega
              (arith, sample_body-fits n times (take n values) (take n clock) (take n replica) w)))
          (decode_sketches-body n times (take n values) (take n clock) (take n replica) w
            out.sketches (any_not_finite-take n values f)))

  pub append_sketch_segments_loop-Writes :
      (k : ℕ) (time : List ℕ) (values : List Float64) (clock replica dst : List ℕ) (out : Pending)
      → length time ≤ k
      → IsSampleRows (length time) time values clock replica
      → IsAscending time
      → any_not_finite values ≡ false
      → Writes s2
          (append_sketch_segments_loop s2 k (sketches_at time values clock replica) dst)
          dst
          out
          (add_sketches out time values clock replica)
  unfolding append_sketch_segments_loop
  append_sketch_segments_loop-Writes zero [] values clock replica dst out h v a f =
      rw (add_sketches-nil out values clock replica v) (Writes-refl s2 dst out)
  append_sketch_segments_loop-Writes (suc k) [] values clock replica dst out h v a f =
      rw (add_sketches-nil out values clock replica v) (Writes-refl s2 dst out)
  append_sketch_segments_loop-Writes zero (t ∷ ts) values clock replica dst out h v a f =
      absurd (omega arith)
  append_sketch_segments_loop-Writes (suc k) (t ∷ ts) values clock replica dst out h v a f =
      let n : ℕ = chunk (t ∷ ts) in
      rw (← add_sketches-split n out (t ∷ ts) values clock replica) (
        Writes-trans s2 dst _ _ out _ _
          (sketch_chunk-Writes t ts values clock replica dst out v a f)
          (append_sketch_segments_loop-Writes k (drop n (t ∷ ts)) (drop n values) (drop n clock)
            (drop n replica) _ _ (omega (arith, length-drop n (t ∷ ts)))
            (IsSampleRows-drop (t ∷ ts) values clock replica v n) (IsAscending-drop n (t ∷ ts) a)
            (any_not_finite-drop n values f)))
