-- ===== src/Reads/Stop.antt =====
-- `sampleRange` of samples.go and `counterRange` of counters.go when the reader says to stop.
use trend.Prelude.{ℕ, ◌≡◌, ◌≢◌, refl, arith, ◌⊎◌, inl, inr, Bool, true, false, Option, none, some}
use trend.Prelude.{List, [], ◌∷◌, ◌<◌, ◌==◌, ltb, if◌then◌else◌}
use trend.Float.{Float64, Arith}
use trend.Data.{SampleBucket, CounterBucket}
use trend.Times.{bucket_of}
use trend.Agg.{Fold, Agg, empty_fold, value}
use trend.Codec.Reader.{Error}
use trend.Codec.Segment.{Compressor, scan}
use trend.Codec.Block.{decode_sample_values, decode_counter_values}
use trend.Cached.{is_set}
use trend.Reads.{RangeState, range_step, range_end}
use trend.Reads.Invariant.{Ends, Keeps, scan-Ends, OfReader, Ends-of, visit_segment-Keeps}
use trend.Reads.Samples.{sample_range}
use trend.Reads.Samples as OfSamples
use trend.Reads.Counters.{counter_range}
use trend.Reads.Counters as OfCounters

-- The calls of the reader's function, the last one first.
abbrev pub Calls : Type 0
Calls = List (ℕ × Float64)

module _ (more : ℕ → Float64 → Calls → Bool) where
  -- A reader that keeps its calls and decides on all of them.
  abbrev pub recording : ℕ → Float64 → Calls → Calls × Bool
  recording t v s = ((t, v) ∷ s, more t v s)

  -- Each call was answered with true.
  abbrev pub AllMore : Calls → Type 0
  AllMore [] = Unit
  AllMore ((t, v) ∷ s) = (more t v s ≡ true) × AllMore s

  -- The last call, and no other, was answered with false.
  abbrev pub IsStopped : Calls → Type 0
  IsStopped [] = ⊥
  IsStopped ((t, v) ∷ s) = (more t v s ≡ false) × AllMore s

  -- The last call once more.
  abbrev pub again : Calls → Calls
  again [] = []
  again (c ∷ s) = c ∷ c ∷ s

  -- What a range read whose scan made the calls `seen` ends with: the same calls behind an error, and
  -- without one at most a call more where each was answered with true, and the last call once more
  -- where it was answered with false.
  abbrev pub IsRangeRead : Calls → Calls × Option Error → Type 0
  IsRangeRead seen (calls, e) =
      ((is_set e ≡ true) × (calls ≡ seen))
      ⊎ ((e ≡ none) × AllMore seen × ((calls ≡ seen) ⊎ ((c : ℕ × Float64) × (calls ≡ c ∷ seen))))
      ⊎ ((e ≡ none) × IsStopped seen × (calls ≡ again seen))

  module _ (fp : Arith) (agg : Agg) where
    abbrev IsLast : ℕ → Float64 → Calls → Type 0
    IsLast t v [] = ⊥
    IsLast t v ((k, w) ∷ s) = (k ≡ t) × (w ≡ v) × (more k w s ≡ false) × AllMore s

    -- A scan that goes on, and one that was told to stop at its own time and aggregate.
    abbrev OfRange : RangeState Calls → Bool → Type 0
    OfRange st true = AllMore st.s
    OfRange st false = IsLast st.current (value fp st.f agg) st.s × (0 < st.f.count)

    step-OfRange :
        (k : ℕ) (feed : Fold → Fold) (st : RangeState Calls)
        → AllMore st.s
        → OfRange
            (range_step fp agg recording k feed st).0
            (range_step fp agg recording k feed st).1
    unfolding range_step
    step-OfRange k feed st h = ground (arith, h)

    end_cases :
        (b : Bool) (c : ℕ × Float64) (s : Calls)
        → ◌≡◌ {A = Calls} (if b then c ∷ s else s) s
          ⊎ ((d : ℕ × Float64) × ◌≡◌ {A = Calls} (if b then c ∷ s else s) (d ∷ s))
    end_cases true c s = inr (c, refl)
    end_cases false c s = inl refl

    last_lem :
        (t : ℕ) (v : Float64) (s : Calls)
        → IsLast t v s
        → IsStopped s × ◌≡◌ {A = Calls} ((t, v) ∷ s) (again s)
    last_lem t v [] h = absurd h
    last_lem t v ((k, w) ∷ s) (p, q, m, a) = ((m, a), rw (p, q) refl)

    end_lem :
        (st : RangeState Calls)
        → Ends OfRange st
        → IsRangeRead st.s (range_end fp agg recording st, none)
    unfolding range_end
    end_lem st (inl h) =
        inr (inl (refl, h, end_cases (ltb 0 st.f.count) (st.current, value fp st.f agg) st.s))
    end_lem st (inr (h, c)) =
        let (stopped, same) = last_lem st.current (value fp st.f agg) st.s h in
        let some_seen : ltb 0 st.f.count ≡ true = ground (arith, c) in
        rw some_seen (inr (inr (refl, stopped, same)))

    module _ (s2 : Compressor) (from to span : ℕ) where
      samples_values-OfRange :
          (ts : List ℕ) (vs : List Float64) (st : RangeState Calls)
          → AllMore st.s
          → let (st', b) = OfSamples.range_values s2 fp from to recording span agg ts vs st in
            OfRange st' b
      unfolding OfSamples.range_values
      samples_values-OfRange [] vs st h = h
      samples_values-OfRange (t ∷ ts) [] st h = h
      samples_values-OfRange (t ∷ ts) (v ∷ vs) st h =
          let k = bucket_of t span in
          let feed : Fold → Fold = λ f. trend.Agg.add fp f v in
          ground (
            arith,
            h,
            step-OfRange k feed st h,
            samples_values-OfRange ts vs st h,
            samples_values-OfRange ts vs (range_step fp agg recording k feed st).0,
          )

      samples_buckets-OfRange :
          (bs : List SampleBucket) (st : RangeState Calls)
          → AllMore st.s
          → let (st', b) = OfSamples.range_buckets s2 fp from to recording span agg bs st in
            OfRange st' b
      unfolding OfSamples.range_buckets
      samples_buckets-OfRange [] st h = h
      samples_buckets-OfRange (x ∷ bs) st h =
          let k = bucket_of x.time span in
          let feed : Fold → Fold = λ f. trend.Agg.merge fp f x in
          ground (
            arith,
            h,
            step-OfRange k feed st h,
            samples_buckets-OfRange bs st h,
            samples_buckets-OfRange bs (range_step fp agg recording k feed st).0,
          )

      samples_yield-Keeps :
          Keeps (OfReader OfRange) (OfSamples.range_yield s2 fp from to recording span agg)
      unfolding OfSamples.range_yield
      samples_yield-Keeps seg st h = ground (
        arith,
        h,
        visit_segment-Keeps OfRange s2 decode_sample_values
            (λ (ts, vs) s. OfSamples.range_values s2 fp from to recording span agg ts vs s) from to
            seg st (λ (ts, vs) s k. samples_values-OfRange ts vs s k) h,
        visit_segment-Keeps OfRange s2 OfSamples.fresh_buckets
            (OfSamples.range_buckets s2 fp from to recording span agg) from to seg st
            samples_buckets-OfRange h,
      )

      counters_values-OfRange :
          (ts vs : List ℕ) (st : RangeState Calls)
          → AllMore st.s
          → let (st', b) = OfCounters.range_values s2 fp from to recording span agg ts vs st in
            OfRange st' b
      unfolding OfCounters.range_values
      counters_values-OfRange [] vs st h = h
      counters_values-OfRange (t ∷ ts) [] st h = h
      counters_values-OfRange (t ∷ ts) (v ∷ vs) st h =
          let k = bucket_of t span in
          let feed : Fold → Fold = λ f. trend.Agg.add fp f (fp.of_uint64 v) in
          ground (
            arith,
            h,
            step-OfRange k feed st h,
            counters_values-OfRange ts vs st h,
            counters_values-OfRange ts vs (range_step fp agg recording k feed st).0,
          )

      counters_buckets-OfRange :
          (bs : List CounterBucket) (st : RangeState Calls)
          → AllMore st.s
          → let (st', b) = OfCounters.range_buckets s2 fp from to recording span agg bs st in
            OfRange st' b
      unfolding OfCounters.range_buckets
      counters_buckets-OfRange [] st h = h
      counters_buckets-OfRange (x ∷ bs) st h =
          let k = bucket_of x.time span in
          let feed : Fold → Fold = λ f. trend.Agg.add fp f (fp.of_uint64 x.sum) in
          ground (
            arith,
            h,
            step-OfRange k feed st h,
            counters_buckets-OfRange bs st h,
            counters_buckets-OfRange bs (range_step fp agg recording k feed st).0,
          )

      counters_yield-Keeps :
          Keeps (OfReader OfRange) (OfCounters.range_yield s2 fp from to recording span agg)
      unfolding OfCounters.range_yield
      counters_yield-Keeps seg st h = ground (
        arith,
        h,
        visit_segment-Keeps OfRange s2 decode_counter_values
            (λ (ts, vs) s. OfCounters.range_values s2 fp from to recording span agg ts vs s) from to
            seg st (λ (ts, vs) s k. counters_values-OfRange ts vs s k) h,
        visit_segment-Keeps OfRange s2 OfCounters.fresh_buckets
            (OfCounters.range_buckets s2 fp from to recording span agg) from to seg st
            counters_buckets-OfRange h,
      )

      abbrev start : RangeState Calls
      start = record { current = 0; f = empty_fold; s = [] }

      -- What the scan of a range read leaves.
      abbrev pub samples_scanned : List ℕ → RangeState Calls
      samples_scanned series =
          (scan (OfSamples.range_yield s2 fp from to recording span agg) series (start, none)).0.0

      abbrev pub counters_scanned : List ℕ → RangeState Calls
      counters_scanned series =
          (scan (OfCounters.range_yield s2 fp from to recording span agg) series (start, none)).0.0

      finish :
          (seen : (RangeState Calls × Option Error) × Option Error)
          → Ends (OfReader OfRange) seen.0
          → IsRangeRead seen.0.0.s (elim seen.1 as (λ e. Calls × Option Error) [
            | some e ↦ (seen.0.0.s, some e)
            | none ↦ elim seen.0.1 [
              | some e ↦ (seen.0.0.s, some e)
              | none ↦ (range_end fp agg recording seen.0.0, none)
            ]
          ])
      finish ((st, d), some e) h = inl (refl, refl)
      finish ((st, some e), none) h = inl (refl, refl)
      finish ((st, none), none) h = end_lem st (Ends-of OfRange (st, none) h)

      -- Let a reader decide on all of its calls whether it wants more. Then, for a span that is not 0
      -- and whatever the bytes of a series are, `sampleRange` and `counterRange` end in one of three
      -- ways. With an error, the calls are those that their scan made. Without one, and where each
      -- call of the scan was answered with true, at most one call follows. Without one, and where
      -- the last call of the scan was answered with false, that call is made once more.
      pub range-stopped :
          (series : List ℕ)
          → span ≢ 0
          → IsRangeRead
              (samples_scanned series).s
              (sample_range s2 fp from to recording span agg series [])
            × IsRangeRead
                (counters_scanned series).s
                (counter_range s2 fp from to recording span agg series [])
      unfolding sample_range counter_range
      range-stopped series p =
          let samples = OfSamples.range_yield s2 fp from to recording span agg in
          let counters = OfCounters.range_yield s2 fp from to recording span agg in
          let some_span : (span == 0) ≡ false = ground (arith, p) in
          rw some_span (
            finish (scan samples series (start, none))
                (scan-Ends (OfReader OfRange) samples samples_yield-Keeps series (start, none) tt),
            finish (scan counters series (start, none)) (
                scan-Ends (OfReader OfRange) counters counters_yield-Keeps series (start, none) tt),
          )
