-- ===== src/Reads/Counters.antt =====
-- `counterValues` and `counterRange` of counters.go.
use trend.Prelude.{
  ℕ, ◌+◌, ◌%◌, ◌^◌, Bool, true, false, ◌&&◌, not, Option, none, some, List, [], ◌∷◌, ◌==◌,
  if◌then◌else◌,
}
use trend.Float.{Float64, Arith}
use trend.Data.{CounterBucket, no_counters}
use trend.Times.{bucket_of}
use trend.Agg.{Agg, empty_fold, add}
use trend.Codec.Reader.{Error}
use trend.Codec.Segment.{Compressor, Segment, segment_counters, segment_counter_buckets, scan}
use trend.Codec.Block.{decode_counter_values, decode_counter_buckets}
use trend.Reads.{within, visit_segment, RangeState, range_step, range_end}

-- `decodeCounterBuckets` into a fresh counterData.
abbrev pub fresh_buckets : List ℕ → ℕ → List CounterBucket × Option Error
fresh_buckets raw n = let (out, e) = decode_counter_buckets raw n no_counters in (out.buckets, e)

-- The variables of `counterValues`, and the reader's state.
pub record SumState (S : Type 0) : Type 0 where
  pub current : ℕ
  pub sum : ℕ
  pub have : Bool
  pub s : S

module _ {S : Type 0} (s2 : Compressor) (fp : Arith) (from to : ℕ)
    (yield : ℕ → Float64 → S → S × Bool) where
  unfoldable pub flush : SumState S → SumState S × Bool
  flush st =
      if st.have
      then (let (s', more) = yield st.current (fp.of_uint64 st.sum) st.s in
          (record { current = st.current; sum = 0; have = false; s = s' }, more))
      else (st, true)

  -- A round of either loop.
  unfoldable pub sum_step : ℕ → ℕ → SumState S → SumState S × Bool
  unfolding flush
  sum_step t v st =
      let (st', more) = if st.have && not (t == st.current) then flush st else (st, true) in
      elim more [
        | true ↦
            (record { current = t; sum = (st'.sum + v) % 2 ^ 64; have = true; s = st'.s }, true)
        | false ↦ (st', false)
      ]

  unfoldable pub sum_values : List ℕ → List ℕ → SumState S → SumState S × Bool
  sum_values (t ∷ ts) (v ∷ vs) st = elim (within t from to) [
    | false ↦ sum_values ts vs st
    | true ↦
        let (st', more) = sum_step t v st in
        elim more [ true ↦ sum_values ts vs st' | false ↦ (st', false) ]
  ]
  sum_values _ _ st = (st, true)

  unfoldable pub sum_buckets : List CounterBucket → SumState S → SumState S × Bool
  sum_buckets [] st = (st, true)
  sum_buckets (b ∷ bs) st = elim (within b.time from to) [
    | false ↦ sum_buckets bs st
    | true ↦
        let (st', more) = sum_step b.time b.sum st in
        elim more [ true ↦ sum_buckets bs st' | false ↦ (st', false) ]
  ]

  unfoldable pub values_yield :
      Segment → SumState S × Option Error → (SumState S × Option Error) × Bool
  values_yield seg st =
      if seg.kind == segment_counters
      then visit_segment s2 decode_counter_values (λ (ts, vs) s. sum_values ts vs s) from to seg st
      else if seg.kind == segment_counter_buckets
      then visit_segment s2 fresh_buckets sum_buckets from to seg st
      else (st, true)

  unfoldable pub counter_values : List ℕ → S → S × Option Error
  unfolding flush
  counter_values series s =
      let start : SumState S = record { current = 0; sum = 0; have = false; s = s } in
      let ((st, decode_err), e) = scan values_yield series (start, none) in
      elim e [
        | some e ↦ (st.s, some e)
        | none ↦ elim decode_err [ some e ↦ (st.s, some e) | none ↦ ((flush st).0.s, none) ]
      ]

  module _ (span : ℕ) (agg : Agg) where
    unfoldable pub range_values : List ℕ → List ℕ → RangeState S → RangeState S × Bool
    range_values (t ∷ ts) (v ∷ vs) st = elim (within t from to) [
      | false ↦ range_values ts vs st
      | true ↦
          let (st', more) =
            range_step fp agg yield (bucket_of t span) (λ f. add fp f (fp.of_uint64 v)) st in
          elim more [ true ↦ range_values ts vs st' | false ↦ (st', false) ]
    ]
    range_values _ _ st = (st, true)

    unfoldable pub range_buckets : List CounterBucket → RangeState S → RangeState S × Bool
    range_buckets [] st = (st, true)
    range_buckets (b ∷ bs) st = elim (within b.time from to) [
      | false ↦ range_buckets bs st
      | true ↦
          let (st', more) =
            range_step fp agg yield (bucket_of b.time span) (λ f. add fp f (fp.of_uint64 b.sum))
              st in
          elim more [ true ↦ range_buckets bs st' | false ↦ (st', false) ]
    ]

    unfoldable pub range_yield :
        Segment → RangeState S × Option Error → (RangeState S × Option Error) × Bool
    range_yield seg st =
        if seg.kind == segment_counters
        then visit_segment s2 decode_counter_values (λ (ts, vs) s. range_values ts vs s) from to seg
            st
        else if seg.kind == segment_counter_buckets
        then visit_segment s2 fresh_buckets range_buckets from to seg st
        else (st, true)

    unfoldable pub counter_range : List ℕ → S → S × Option Error
    counter_range series s =
        if span == 0
        then counter_values series s
        else (let start : RangeState S = record { current = 0; f = empty_fold; s = s } in
            let ((st, decode_err), e) = scan range_yield series (start, none) in
            elim e [
              | some e ↦ (st.s, some e)
              | none ↦ elim decode_err [
                | some e ↦ (st.s, some e)
                | none ↦ (range_end fp agg yield st, none)
              ]
            ])
