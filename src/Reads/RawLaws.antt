-- ===== src/Reads/RawLaws.antt =====
-- `sketchRawRange` of sketches.go: when it calls the reader's function, and with what.
use trend.Prelude.{ℕ, ◌<◌, ◌≡◌, refl, arith, ◌⊎◌, Bool, true, false, Option, none}
use trend.Prelude.{List, [], ◌∷◌}
use trend.Float.{Float64, Arith, is_nan, zero_float}
use trend.Codec.Reader.{Error}
use trend.Codec.Segment.{Compressor, decode_into, scan}
use trend.Codec.Block.{decode_sample_values}
use trend.Sketches.Value.{Math}
use trend.Sketches.Handle.{Sketch}
use trend.Reads.Invariant.{Ends, Keeps, scan-Ends}
use trend.Reads.Sketches.{
  RawState, output_time, raw_flush, raw_observe, raw_sketch, raw_rows, raw_yield, raw_start,
  sketch_raw_range,
}

module _ {S : Type 0} (I : S → Bool → Type 0) (s2 : Compressor) (lib : Math) (fp : Arith)
    (sort : List Float64 → List Float64) (from to span : ℕ) (yield : ℕ → Sketch → S → S × Bool)
    -- What holds of the variables between two rows.
    (J : RawState S → Type 0)
    (J_observe : (t : ℕ) (v : Float64) (st : RawState S)
      → is_nan v ≡ false
      → J st
      → J (raw_observe s2 lib fp sort from to span yield t v st))
    (J_clear : (s : S) (st : RawState S)
      → J st
      → J (record st { exact = []; count = 0; sum = zero_float; s = s }))
    (keeps : (st : RawState S)
      → J st
      → 0 < st.count
      → I st.s true
      → I
          (yield st.current (raw_sketch s2 lib fp sort from to span yield st) st.s).0
          (yield st.current (raw_sketch s2 lib fp sort from to span yield st) st.s).1)
    (J_start : (s : S) → J (raw_start s2 lib fp sort from to span yield s)) where
  -- The scan goes on with a reader that may be called, or has been told to stop.
  abbrev Open : RawState S → Type 0
  Open st = I st.s true × (st.stopped ≡ false) × J st

  abbrev Shut : RawState S → Type 0
  Shut st = I st.s false × (st.stopped ≡ true)

  abbrev OfRaw : RawState S × Option Error → Bool → Type 0
  OfRaw (st, e) true = Open st
  OfRaw (st, e) false = Open st ⊎ Shut st

  flush-OfRaw :
      (st : RawState S)
      → Open st
      → OfRaw
          ((raw_flush s2 lib fp sort from to span yield st).0, none)
          (raw_flush s2 lib fp sort from to span yield st).1
  unfolding raw_flush
  flush-OfRaw st h =
      let s' = (yield st.current (raw_sketch s2 lib fp sort from to span yield st) st.s).0 in
      ground (arith, h, keeps st, J_clear s' st)

  observe-Open :
      (t : ℕ) (v : Float64) (st : RawState S)
      → Open st
      → is_nan v ≡ false
      → Open (raw_observe s2 lib fp sort from to span yield t v st)
  unfolding raw_observe
  observe-Open t v st (h, k, j) n = (h, k, J_observe t v st n j)

  rows-OfRaw :
      (ts : List ℕ) (vs : List Float64) (st : RawState S)
      → Open st
      → OfRaw
          (raw_rows s2 lib fp sort from to span yield ts vs st).0
          (raw_rows s2 lib fp sort from to span yield ts vs st).1
  unfolding raw_rows
  rows-OfRaw [] vs st h = h
  rows-OfRaw (t ∷ ts) [] st h = h
  rows-OfRaw (t ∷ ts) (v ∷ vs) st h =
      let time = output_time span t in
      let st' = (raw_flush s2 lib fp sort from to span yield st).0 in
      ground (
        arith,
        h,
        flush-OfRaw st h,
        rows-OfRaw ts vs st h,
        observe-Open time v st h,
        observe-Open time v st',
        rows-OfRaw ts vs (raw_observe s2 lib fp sort from to span yield time v st),
        rows-OfRaw ts vs (raw_observe s2 lib fp sort from to span yield time v st'),
      )

  raw_yield-Keeps : Keeps OfRaw (raw_yield s2 lib fp sort from to span yield)
  unfolding raw_yield
  raw_yield-Keeps seg (st, e) h =
      let columns = (decode_sample_values (decode_into s2 seg).0 seg.count).0 in
      ground (arith, h, rows-OfRaw columns.0 columns.1 st h)

  pub sketch_raw_range-Ends :
      (series : List ℕ) (s : S)
      → I s true
      → Ends I (sketch_raw_range s2 lib fp sort from to span yield series s).0
  unfolding sketch_raw_range
  sketch_raw_range-Ends series s h =
      let out =
        (scan (raw_yield s2 lib fp sort from to span yield) series
          (raw_start s2 lib fp sort from to span yield s, none)).0 in
      ground (
        arith,
        scan-Ends OfRaw (raw_yield s2 lib fp sort from to span yield) raw_yield-Keeps series
            (raw_start s2 lib fp sort from to span yield s, none) (h, refl, J_start s),
        flush-OfRaw out.0,
      )
