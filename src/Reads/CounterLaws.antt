-- ===== src/Reads/CounterLaws.antt =====
-- The protocol of `counterValues`: what it may call the reader's function with, and when.
use trend.Prelude.{ℕ, ◌≤◌, ◌≡◌, refl, arith, Bool, true, false, inl, inr, none, List, [], ◌∷◌}
use trend.Float.{Float64, Arith}
use trend.Data.{CounterBucket}
use trend.Codec.Segment.{Compressor, scan}
use trend.Codec.Block.{decode_counter_values}
use trend.Reads.Counters.{
  SumState, flush, sum_step, sum_values, sum_buckets, fresh_buckets, values_yield, counter_values,
}
use trend.Reads.Invariant.{Ends, Keeps, scan-Ends, OfReader, visit_segment-Keeps, Ends-of}

module _ {S : Type 0} (s2 : Compressor) (fp : Arith) (from to : ℕ)
    (yield : ℕ → Float64 → S → S × Bool) (I : S → Bool → Type 0)
    (keeps : (t : ℕ) (v : Float64) (s : S)
      → from ≤ t
      → t ≤ to
      → I s true
      → I (yield t v s).0 (yield t v s).1) where
  -- A sum that waits has a time in range; none waits once the reader said to stop.
  abbrev IsSum : SumState S → Bool → Type 0
  IsSum st more =
      (st.have ≡ true → (from ≤ st.current) × (st.current ≤ to))
      × I st.s more
      × (more ≡ false → st.have ≡ false)

  flush-IsSum :
      (st : SumState S)
      → IsSum st true
      → IsSum (flush s2 fp from to yield st).0 (flush s2 fp from to yield st).1
  unfolding flush
  flush-IsSum st (a, b, c) = ground (arith, a, b, c, keeps st.current (fp.of_uint64 st.sum) st.s)

  sum_step-IsSum :
      (t v : ℕ) (st : SumState S)
      → from ≤ t
      → t ≤ to
      → IsSum st true
      → IsSum (sum_step s2 fp from to yield t v st).0 (sum_step s2 fp from to yield t v st).1
  unfolding sum_step
  sum_step-IsSum t v st p q h = ground (arith, p, q, h, flush-IsSum st h)

  sum_values-Visits :
      (ts vs : List ℕ) (st : SumState S)
      → IsSum st true
      → IsSum
          (sum_values s2 fp from to yield ts vs st).0
          (sum_values s2 fp from to yield ts vs st).1
  unfolding sum_values
  sum_values-Visits [] vs st h = h
  sum_values-Visits (t ∷ ts) [] st h = h
  sum_values-Visits (t ∷ ts) (v ∷ vs) st h = ground (
    arith,
    sum_step-IsSum t v st,
    h,
    sum_values-Visits ts vs st,
    sum_values-Visits ts vs (sum_step s2 fp from to yield t v st).0,
  )

  sum_buckets-Visits :
      (bs : List CounterBucket) (st : SumState S)
      → IsSum st true
      → IsSum (sum_buckets s2 fp from to yield bs st).0 (sum_buckets s2 fp from to yield bs st).1
  unfolding sum_buckets
  sum_buckets-Visits [] st h = h
  sum_buckets-Visits (b ∷ bs) st h = ground (
    arith,
    sum_step-IsSum b.time b.sum st,
    h,
    sum_buckets-Visits bs st,
    sum_buckets-Visits bs (sum_step s2 fp from to yield b.time b.sum st).0,
  )

  values_yield-Keeps : Keeps (OfReader IsSum) (values_yield s2 fp from to yield)
  unfolding values_yield
  values_yield-Keeps seg st h = ground (
    arith,
    h,
    visit_segment-Keeps IsSum s2 decode_counter_values
        (λ (ts, vs) s. sum_values s2 fp from to yield ts vs s) from to seg st
        (λ (ts, vs) s k. sum_values-Visits ts vs s k) h,
    visit_segment-Keeps IsSum s2 fresh_buckets (sum_buckets s2 fp from to yield) from to seg st
        sum_buckets-Visits h,
  )

  both : (s : S) (b : Bool) → I s b → Ends I s
  both s true h = inl h
  both s false h = inr h

  end-IsSum :
      (st : SumState S) → Ends IsSum st → Ends I st.s × Ends I (flush s2 fp from to yield st).0.s
  unfolding flush
  end-IsSum st (inl (a, b, c)) =
      let seen = yield st.current (fp.of_uint64 st.sum) st.s in
      (inl b, ground (arith, a, b, keeps st.current (fp.of_uint64 st.sum) st.s, both seen.0 seen.1))
  end-IsSum st (inr (a, b, c)) = (inr b, ground (arith, b, c))

  -- Let a predicate `I` on the reader's state and on whether it wants more hold at the start, and let
  -- each call with a time from `from` to `to`, made while the reader wants more, establish it for
  -- the answer. Then, whatever the bytes of a series are, it holds when `counterValues` ends: the
  -- function is called with no other time, and not again once it said to stop.
  pub counter_values-keeps :
      (series : List ℕ) (s : S) → I s true → Ends I (counter_values s2 fp from to yield series s).0
  unfolding counter_values
  counter_values-keeps series s h =
      let start : SumState S = record { current = 0; sum = 0; have = false; s = s } in
      let last = (scan (values_yield s2 fp from to yield) series (start, none)).0 in
      let k : IsSum start true = (λ e. ground (arith, e), h, λ e. refl) in
      ground (
        arith,
        end-IsSum last.0 (
            Ends-of IsSum last (
              scan-Ends (OfReader IsSum) (values_yield s2 fp from to yield) values_yield-Keeps
                series (start, none) k)),
      )
