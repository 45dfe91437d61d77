-- ===== src/Codec/Writes.antt =====
-- What has been written behind `dst`, and what `pending` makes of it.
use trend.Prelude.{ℕ, zero, suc, ◌≤◌, ◌≡◌, sym, ap, ◌∙◌, arith, true, none}
use trend.Prelude.{List, [], ◌∷◌, ◌++◌, append-nil, append_assoc, All, drop}
use trend.Data.{SampleData, CounterData, SketchData, Pending}
use trend.Codec.Segment.{
  Compressor, IsLossless, append_segment, apply_raw, segment_samples, segment_counters,
  segment_sample_buckets, segment_counter_buckets, segment_sketches, segment_sketch_buckets,
}
use trend.Codec.Block.{
  decode_samples, decode_counters, decode_sketches, decode_sample_buckets, decode_counter_buckets,
  decode_sketch_buckets,
}
use trend.Codec.Segments.{last_or}
use trend.Codec.Series.{pending_yield}
use trend.Codec.Scan.{
  IsBlock, segment_of, segment_bytes, append_segment-bytes, decode_into-segment_of, Scans,
  Scans-nil, Scans-append, Scans-segment,
}

-- No entry is smaller than one before it.
abbrev pub IsAscending : List ℕ → Type 0
IsAscending [] = Unit
IsAscending (x ∷ xs) = All (λ y. x ≤ y) xs × IsAscending xs

pub IsAscending-drop : (n : ℕ) (xs : List ℕ) → IsAscending xs → IsAscending (drop n xs)
IsAscending-drop zero xs h = h
IsAscending-drop (suc n) [] h = tt
IsAscending-drop (suc n) (x ∷ xs) h = IsAscending-drop n xs h.1

pub All-last_or {ℓ} : (P : ℕ → Type ℓ) (d : ℕ) (xs : List ℕ) → P d → All P xs → P (last_or d xs)
unfolding last_or
All-last_or P d [] p h = p
All-last_or P d (x ∷ xs) p h = All-last_or P x xs h.0 h.1

module _ (s2 : Compressor) where
  -- `written` is `dst` and segments behind it, which take the decoded state from `out` to `out'`.
  abbrev pub Writes : List ℕ → List ℕ → Pending → Pending → Type 0
  Writes written dst out out' =
      (bs : List ℕ) × (written ≡ dst ++ bs) × Scans (pending_yield s2) bs (out, none) (out', none)

  pub Writes-refl : (dst : List ℕ) (out : Pending) → Writes dst dst out out
  Writes-refl dst out = ([], sym (append-nil dst), Scans-nil (pending_yield s2) (out, none))

  pub Writes-trans :
      (u v w : List ℕ) (o o' o'' : Pending) → Writes v u o o' → Writes w v o' o'' → Writes w u o o''
  Writes-trans u v w o o' o'' (bs, p, h) (cs, q, k) = (
    bs ++ cs,
    q ∙ ap (λ t. t ++ cs) p ∙ append_assoc u bs cs,
    Scans-append (pending_yield s2) bs cs (o, none) (o', none) (o'', none) h k,
  )

  module _ (lossless : IsLossless s2) where
    Writes-segment :
        (dst : List ℕ) (kind from to n : ℕ) (raw : List ℕ) (out out' : Pending)
        → IsBlock kind from to n raw
        → apply_raw (segment_of s2 kind from to n raw) out raw ≡ (out', none)
        → Writes (append_segment s2 dst kind from to n raw) dst out out'
    Writes-segment dst kind from to n raw out out' v h = (
      segment_bytes s2 kind from to n raw,
      append_segment-bytes s2 dst kind from to n raw,
      Scans-segment (pending_yield s2) s2 kind from to n raw (out, none) (out', none) lossless v
          accepted,
    )
      where
        accepted :
            pending_yield s2 (segment_of s2 kind from to n raw) (out, none) ≡ ((out', none), true)
        accepted =
            unfold pending_yield in
            ground (arith, decode_into-segment_of s2 kind from to n raw lossless v.raw_fits, h)

    module _ (dst : List ℕ) (from to n : ℕ) (raw : List ℕ) (out : Pending) where
      pub Writes-samples :
          {d : SampleData}
          → IsBlock segment_samples from to n raw
          → decode_samples raw n out.samples ≡ (d, none)
          → Writes
              (append_segment s2 dst segment_samples from to n raw)
              dst
              out
              (record out { samples = d })
      unfolding apply_raw
      Writes-samples v h = Writes-segment dst segment_samples from to n raw out _ v (rw h)

      pub Writes-counters :
          {d : CounterData}
          → IsBlock segment_counters from to n raw
          → decode_counters raw n out.counters ≡ (d, none)
          → Writes
              (append_segment s2 dst segment_counters from to n raw)
              dst
              out
              (record out { counters = d })
      unfolding apply_raw
      Writes-counters v h = Writes-segment dst segment_counters from to n raw out _ v (rw h)

      pub Writes-sample_buckets :
          {d : SampleData}
          → IsBlock segment_sample_buckets from to n raw
          → decode_sample_buckets raw n out.samples ≡ (d, none)
          → Writes
              (append_segment s2 dst segment_sample_buckets from to n raw)
              dst
              out
              (record out { samples = d })
      unfolding apply_raw
      Writes-sample_buckets v h =
          Writes-segment dst segment_sample_buckets from to n raw out _ v (rw h)

      pub Writes-counter_buckets :
          {d : CounterData}
          → IsBlock segment_counter_buckets from to n raw
          → decode_counter_buckets raw n out.counters ≡ (d, none)
          → Writes
              (append_segment s2 dst segment_counter_buckets from to n raw)
              dst
              out
              (record out { counters = d })
      unfolding apply_raw
      Writes-counter_buckets v h =
          Writes-segment dst segment_counter_buckets from to n raw out _ v (rw h)

      pub Writes-sketches :
          {d : SketchData}
          → IsBlock segment_sketches from to n raw
          → decode_sketches raw n out.sketches ≡ (d, none)
          → Writes
              (append_segment s2 dst segment_sketches from to n raw)
              dst
              out
              (record out { sketches = d })
      unfolding apply_raw
      Writes-sketches v h = Writes-segment dst segment_sketches from to n raw out _ v (rw h)

      pub Writes-sketch_buckets :
          {d : SketchData}
          → IsBlock segment_sketch_buckets from to n raw
          → decode_sketch_buckets raw n out.sketches ≡ (d, none)
          → Writes
              (append_segment s2 dst segment_sketch_buckets from to n raw)
              dst
              out
              (record out { sketches = d })
      unfolding apply_raw
      Writes-sketch_buckets v h =
          Writes-segment dst segment_sketch_buckets from to n raw out _ v (rw h)
