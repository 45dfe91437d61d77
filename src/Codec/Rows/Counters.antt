-- ===== src/Codec/Rows/Counters.antt =====
-- The counter loop of block.go and `pending` on the segments it writes.
use trend.Prelude.{ℕ, zero, suc, ◌≤◌, ◌≡◌, refl, arith}
use trend.Prelude.{
  List, [], ◌∷◌, ◌++◌, append-nil, append_assoc, length, take, drop, length-drop, take-append-drop,
}
use trend.Data.{CounterData, Pending, CounterBucket}
use trend.Codec.Segment.{Compressor, IsLossless, append_segment, segment_counters}
use trend.Codec.Block.{append_counter_raw}
use trend.Codec.Segments.{last_or, append_counter_segments_loop}
use trend.Codec.Bodies.{
  IsCounterRows, counter_body, append_counter_raw-body, counter_body-fits, decode_counters-body,
}
use trend.Codec.Writes.{
  IsAscending, IsAscending-drop, Writes, Writes-refl, Writes-trans, Writes-counters,
}
use trend.Codec.Rows.{chunk, chunk-IsBlock, nil_of_length, IsCounterRows-take, IsCounterRows-drop}

abbrev pub add_counters : Pending → List ℕ → List ℕ → List ℕ → List ℕ → Pending
add_counters out time replica clock value = record out {
  counters = record (out.counters) {
    time = out.counters.time ++ time;
    replica = out.counters.replica ++ replica;
    clock = out.counters.clock ++ clock;
    value = out.counters.value ++ value;
  };
}

add_counters-nil :
    (out : Pending) (replica clock value : List ℕ)
    → IsCounterRows 0 [] replica clock value
    → add_counters out [] replica clock value ≡ out
add_counters-nil out replica clock value v =
    rw
      (
        nil_of_length value v.value_length,
        nil_of_length clock v.clock_length,
        nil_of_length replica v.replica_length,
      )
      (simp append-nil)

add_counters-split :
    (n : ℕ) (out : Pending) (time : List ℕ) (replica clock value : List ℕ)
    → add_counters
        (add_counters out (take n time) (take n replica) (take n clock) (take n value))
        (drop n time)
        (drop n replica)
        (drop n clock)
        (drop n value)
      ≡ add_counters out time replica clock value
add_counters-split n out time replica clock value = simp (append_assoc, take-append-drop)

module _ (s2 : Compressor) (lossless : IsLossless s2) (bs : List CounterBucket) where
  abbrev counters_at : List ℕ → List ℕ → List ℕ → List ℕ → CounterData
  counters_at time replica clock value = record {
    time = time;
    replica = replica;
    clock = clock;
    value = value;
    buckets = bs;
  }

  counter_chunk-Writes :
      (t : ℕ) (ts : List ℕ) (replica clock value dst : List ℕ) (out : Pending)
      → IsCounterRows (length (t ∷ ts)) (t ∷ ts) replica clock value
      → IsAscending (t ∷ ts)
      → let n = chunk (t ∷ ts) in
        let times = take n (t ∷ ts) in
        Writes s2
          (append_segment s2 dst segment_counters t
            (last_or t times)
            n
            (append_counter_raw [] times (take n replica) (take n clock) (take n value)))
          dst
          out
          (add_counters out times (take n replica) (take n clock) (take n value))
  counter_chunk-Writes t ts replica clock value dst out v a =
      let n : ℕ = chunk (t ∷ ts) in
      let times : List ℕ = take n (t ∷ ts) in
      let w = IsCounterRows-take (t ∷ ts) replica clock value v n (omega arith) in
      let body = counter_body n times (take n replica) (take n clock) (take n value) in
      rw (append_counter_raw-body n times (take n replica) (take n clock) (take n value)) (
        Writes-counters s2 lossless dst t (last_or t times) n body out
          (chunk-IsBlock segment_counters n t ts body refl (omega arith) (omega arith) v.time_fits a
            (omega
              (arith, counter_body-fits n times (take n replica) (take n clock) (take n value) w)))
          (decode_counters-body n times (take n replica) (take n clock) (take n value) w
            out.counters))

  pub append_counter_segments_loop-Writes :
      (k : ℕ) (time : List ℕ) (replica clock value dst : List ℕ) (out : Pending)
      → length time ≤ k
      → IsCounterRows (length time) time replica clock value
      → IsAscending time
      → Writes s2
          (append_counter_segments_loop s2 k (counters_at time replica clock value) dst)
          dst
          out
          (add_counters out time replica clock value)
  unfolding append_counter_segments_loop
  append_counter_segments_loop-Writes zero [] replica clock value dst out h v a =
      rw (add_counters-nil out replica clock value v) (Writes-refl s2 dst out)
  append_counter_segments_loop-Writes (suc k) [] replica clock value dst out h v a =
      rw (add_counters-nil out replica clock value v) (Writes-refl s2 dst out)
  append_counter_segments_loop-Writes zero (t ∷ ts) replica clock value dst out h v a =
      absurd (omega arith)
  append_counter_segments_loop-Writes (suc k) (t ∷ ts) replica clock value dst out h v a =
      let n : ℕ = chunk (t ∷ ts) in
      rw (← add_counters-split n out (t ∷ ts) replica clock value) (
        Writes-trans s2 dst _ _ out _ _ (counter_chunk-Writes t ts replica clock value dst out v a)
          (append_counter_segments_loop-Writes k (drop n (t ∷ ts)) (drop n replica) (drop n clock)
            (drop n value) _ _ (omega (arith, length-drop n (t ∷ ts)))
            (IsCounterRows-drop (t ∷ ts) replica clock value v n) (IsAscending-drop n (t ∷ ts) a)))
