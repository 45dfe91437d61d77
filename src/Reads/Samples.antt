-- ===== src/Reads/Samples.antt =====
-- `sampleValues` and `sampleRange` of samples.go.
use trend.Prelude.{ℕ, Bool, true, false, Option, none, some, List, [], ◌∷◌, ◌==◌, if◌then◌else◌}
use trend.Float.{Float64, Arith}
use trend.Data.{SampleBucket, no_samples}
use trend.Times.{bucket_of}
use trend.Agg.{Agg, empty_fold, add, merge}
use trend.Codec.Reader.{Error}
use trend.Codec.Segment.{Compressor, Segment, segment_samples, segment_sample_buckets, scan}
use trend.Codec.Block.{decode_sample_values, decode_sample_buckets}
use trend.Reads.{within, visit_segment, RangeState, range_step, range_end}

-- `decodeSampleBuckets` into a fresh sampleData.
abbrev pub fresh_buckets : List ℕ → ℕ → List SampleBucket × Option Error
fresh_buckets raw n = let (out, e) = decode_sample_buckets raw n no_samples in (out.buckets, e)

module _ {S : Type 0} (s2 : Compressor) (fp : Arith) (from to : ℕ)
    (yield : ℕ → Float64 → S → S × Bool) where
  unfoldable pub each_value : List ℕ → List Float64 → S → S × Bool
  each_value (t ∷ ts) (v ∷ vs) s = elim (within t from to) [
    | false ↦ each_value ts vs s
    | true ↦
        let (s', more) = yield t v s in
        elim more [ true ↦ each_value ts vs s' | false ↦ (s', false) ]
  ]
  each_value _ _ s = (s, true)

  -- The mean of each bucket.
  unfoldable pub each_bucket : List SampleBucket → S → S × Bool
  each_bucket [] s = (s, true)
  each_bucket (b ∷ bs) s = elim (within b.time from to) [
    | false ↦ each_bucket bs s
    | true ↦
        let (s', more) = yield b.time (fp.div b.sum (fp.of_uint64 b.count)) s in
        elim more [ true ↦ each_bucket bs s' | false ↦ (s', false) ]
  ]

  unfoldable pub values_yield : Segment → S × Option Error → (S × Option Error) × Bool
  values_yield seg st =
      if seg.kind == segment_samples
      then visit_segment s2 decode_sample_values (λ (ts, vs) s. each_value ts vs s) from to seg st
      else if seg.kind == segment_sample_buckets
      then visit_segment s2 fresh_buckets each_bucket from to seg st
      else (st, true)

  unfoldable pub sample_values : List ℕ → S → S × Option Error
  sample_values series s =
      let ((s', decode_err), e) = scan values_yield series (s, none) in
      (s', elim e [ some e ↦ some e | none ↦ decode_err ])

  module _ (span : ℕ) (agg : Agg) where
    unfoldable pub range_values : List ℕ → List Float64 → RangeState S → RangeState S × Bool
    range_values (t ∷ ts) (v ∷ vs) st = elim (within t from to) [
      | false ↦ range_values ts vs st
      | true ↦
          let (st', more) = range_step fp agg yield (bucket_of t span) (λ f. add fp f v) st in
          elim more [ true ↦ range_values ts vs st' | false ↦ (st', false) ]
    ]
    range_values _ _ st = (st, true)

    unfoldable pub range_buckets : List SampleBucket → RangeState S → RangeState S × Bool
    range_buckets [] st = (st, true)
    range_buckets (b ∷ bs) st = elim (within b.time from to) [
      | false ↦ range_buckets bs st
      | true ↦
          let (st', more) =
            range_step fp agg yield (bucket_of b.time span) (λ f. merge fp f b) st in
          elim more [ true ↦ range_buckets bs st' | false ↦ (st', false) ]
    ]

    unfoldable pub range_yield :
        Segment → RangeState S × Option Error → (RangeState S × Option Error) × Bool
    range_yield seg st =
        if seg.kind == segment_samples
        then visit_segment s2 decode_sample_values (λ (ts, vs) s. range_values ts vs s) from to seg
            st
        else if seg.kind == segment_sample_buckets
        then visit_segment s2 fresh_buckets range_buckets from to seg st
        else (st, true)

    unfoldable pub sample_range : List ℕ → S → S × Option Error
    sample_range series s =
        if span == 0
        then sample_values series s
        else (let start : RangeState S = record { current = 0; f = empty_fold; s = s } in
            let ((st, decode_err), e) = scan range_yield series (start, none) in
            elim e [
              | some e ↦ (st.s, some e)
              | none ↦ elim decode_err [
                | some e ↦ (st.s, some e)
                | none ↦ (range_end fp agg yield st, none)
              ]
            ])
