-- ===== src/Reads.antt =====
-- The reads of a stored series: `sampleValues` and `sampleRange` of samples.go, `counterValues` and
-- `counterRange` of counters.go. A yield function works on a state of the reader's and says
-- whether to go on. Times are seconds: `blockTime` is left to the reader.
pub mod Samples
pub mod Counters
pub mod Invariant
pub mod SampleLaws
pub mod CounterLaws
pub mod Stop
pub mod Sketches
pub mod RawLaws
pub mod RawBytes
pub mod RawExtremes
pub mod RawServed
pub mod SketchLaws
use trend.Prelude.{
  ℕ, Bool, true, false, ◌&&◌, ◌||◌, not, Option, none, some, List, ltb, leb, ◌==◌, if◌then◌else◌,
}
use trend.Float.{Float64, Arith}
use trend.Agg.{Fold, Agg, empty_fold, value}
use trend.Codec.Reader.{Error}
use trend.Codec.Segment.{Compressor, Segment, decode_into}

-- `seg.to < from || seg.from > to`.
abbrev pub outside : Segment → ℕ → ℕ → Bool
outside seg from to = ltb seg.to from || ltb to seg.from

abbrev pub within : ℕ → ℕ → ℕ → Bool
within t from to = leb from t && leb t to

-- What a decoder and the loop over its rows do to the closure's state `(s, decodeErr)`. `visit` is
-- the loop; `decode` answers with rows or an error.
module _ {S Rows : Type 0} (s2 : Compressor) where
  unfoldable pub visit_segment :
      (List ℕ → ℕ → Rows × Option Error)
      → (Rows → S → S × Bool)
      → ℕ
      → ℕ
      → Segment
      → S × Option Error
      → (S × Option Error) × Bool
  visit_segment decode visit from to seg (s, decode_err) =
      if outside seg from to
      then ((s, decode_err), true)
      else (let (raw, refused) = decode_into s2 seg in
          elim refused [
            | some e ↦ ((s, some e), false)
            | none ↦
                let (columns, verdict) = decode raw seg.count in
                elim verdict [
                  | some e ↦ ((s, some e), false)
                  | none ↦ let (s', more) = visit columns s in ((s', decode_err), more)
                ]
          ])

-- The variables `current` and `f` of a range read, and the reader's state.
pub record RangeState (S : Type 0) : Type 0 where
  pub current : ℕ
  pub f : Fold
  pub s : S

module _ {S : Type 0} (fp : Arith) (agg : Agg) (yield : ℕ → Float64 → S → S × Bool) where
  -- A round of a range read: a value or bucket at a time whose bucket is `k`, which `feed` adds.
  unfoldable pub range_step : ℕ → (Fold → Fold) → RangeState S → RangeState S × Bool
  range_step k feed st =
      if ltb 0 st.f.count && not (k == st.current)
      then (let (s', more) = yield st.current (value fp st.f agg) st.s in
          elim more [
            | true ↦ (record { current = k; f = feed empty_fold; s = s' }, true)
            | false ↦ (record { current = st.current; f = st.f; s = s' }, false)
          ])
      else (record { current = k; f = feed st.f; s = st.s }, true)

  -- What a range read does after a scan without an error.
  unfoldable pub range_end : RangeState S → S
  range_end st = if ltb 0 st.f.count then (yield st.current (value fp st.f agg) st.s).0 else st.s
