-- ===== src/Codec/Series.antt =====
-- A whole series in codec.go and block.go: `appendTo`, which writes a pending state as segments,
-- and the reads of a stored series: `pending`, `valid`, `versionOK` and `maxTime`.
use trend.Prelude.{ℕ, Bool, true, false, ◌&&◌, ◌||◌, not, Option, none, some}
use trend.Prelude.{List, [], ◌∷◌, length, ltb, ◌==◌, if◌then◌else◌}
use trend.Data.{Pending, no_pending}
use trend.Codec.Reader.{Error, shape_codec, bad_version}
use trend.Codec.Segment.{version, Compressor, Segment, scan, decode_into, apply_raw}
use trend.Codec.Segments.{
  append_sample_bucket_segments, append_sample_segments, append_counter_bucket_segments,
  append_counter_segments, append_sketch_bucket_segments, append_sketch_segments,
}

-- A Go result: a value or an error.
pub data Result {ℓ} (A : Type ℓ) : Type ℓ where
  ok : A → Result A
  err : Error → Result A

module _ (s2 : Compressor) where
  -- The six kinds in the order in which `appendTo` writes them.
  unfoldable pub append_segments : List ℕ → Pending → List ℕ
  append_segments dst p =
      let dst = append_sample_bucket_segments s2 dst p.samples.buckets in
      let dst = append_sample_segments s2 dst p.samples in
      let dst = append_counter_bucket_segments s2 dst p.counters.buckets in
      let dst = append_counter_segments s2 dst p.counters in
      let dst = append_sketch_bucket_segments s2 dst p.sketches.buckets in
      append_sketch_segments s2 dst p.sketches

  unfoldable pub append_to : Pending → List ℕ → Result (List ℕ)
  append_to p [] = ok (append_segments (version ∷ []) p)
  append_to p (v ∷ rest) =
      if v == version then ok (append_segments (v ∷ rest) p) else err (bad_version v)

  -- The closure of `pending`: the state decoded so far and the error that stopped it.
  unfoldable pub pending_yield : Segment → Pending × Option Error → (Pending × Option Error) × Bool
  pending_yield seg (out, e) =
      let (raw, refused) = decode_into s2 seg in
      elim refused [
        | some e ↦ ((out, some e), false)
        | none ↦
            let (out', verdict) = apply_raw seg out raw in
            elim verdict [ some e ↦ ((no_pending, some e), false) | none ↦ ((out', none), true) ]
      ]

  -- An error of the scan comes before one of a segment.
  unfoldable pub pending : List ℕ → Result Pending
  pending s =
      let ((out, decode_err), e) = scan pending_yield s (no_pending, none) in
      elim e [ some e ↦ err e | none ↦ elim decode_err [ some e ↦ err e | none ↦ ok out ] ]

-- `valid` of a series: every segment's header reads well.
unfoldable pub valid_series : List ℕ → Option Error
valid_series s = (scan {S = Unit {0}} (λ _ u. (u, true)) s tt).1

unfoldable pub version_ok : List ℕ → Option Error
version_ok [] = none
version_ok (v ∷ _) = if v == version then none else some (bad_version v)

-- The closure of `maxTime`, on its variables `out` and `ok`.
unfoldable pub max_time_yield : Segment → ℕ × Bool → (ℕ × Bool) × Bool
max_time_yield seg (out, found) =
    ((if not found || ltb out seg.to then seg.to else out, true), true)

unfoldable pub max_time : List ℕ → ℕ × Bool
max_time s = (scan max_time_yield s (0, false)).0

-- `valid` of a pending state: the columns of each kind have one length.
unfoldable pub valid_pending : Pending → Option Error
valid_pending p =
    if (length p.samples.time == length p.samples.values
      && (length p.samples.time == length p.samples.clock
          && (length p.samples.time == length p.samples.replica
              && (length p.counters.time == length p.counters.replica
                  && (length p.counters.time == length p.counters.clock
                      && (length p.counters.time == length p.counters.value
                          && (length p.sketches.time == length p.sketches.values
                              && (length p.sketches.time == length p.sketches.clock
                                  && length p.sketches.time == length p.sketches.replica))))))))
    then none
    else some shape_codec
