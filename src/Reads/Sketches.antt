-- ===== src/Reads/Sketches.antt =====
-- `sketchRange` of sketches.go and the three reads that it chooses from. A stored sketch is a slice
-- of an arena that nothing writes to again, so that it is modelled by its bytes.
use trend.Prelude.{ℕ, ◌+◌, ◌%◌, ◌^◌, Bool, true, false, ◌&&◌, ◌||◌, not, Option, none, some}
use trend.Prelude.{List, [], ◌∷◌, ◌++◌, ltb, ◌==◌, if◌then◌else◌}
use trend.Float.{Float64, Arith, is_nan, is_inf, float_min, float_max, zero_float}
use trend.Maps.{insert, get_or, sorted_times}
use trend.Times.{bucket_of}
use trend.Codec.Reader.{Error, short_codec, shape_codec, make_panic, max_alloc}
use trend.Codec.Segment.{
  Compressor, Segment, segment_sketches, segment_sketch_buckets, decode_into, scan,
}
use trend.Codec.Series.{ok, err}
use trend.Codec.Block.{decode_sample_values, scan_sketch_buckets}
use trend.Sketches.Value.{SketchValue, no_value, Math, add_exact}
use trend.Sketches.Encoded.{sketch_exact, merge_bytes}
use trend.Sketches.Handle.{Sketch, append_exact_values, stored_sketch, encode}
use trend.Reads.{outside, within}

-- The variables of `sketchRawRange`, and the reader's state.
pub record RawState (S : Type 0) : Type 0 where
  pub exact : List Float64
  pub count : ℕ
  pub sum : Float64
  pub min : Float64
  pub max : Float64
  pub current : ℕ
  pub stopped : Bool
  pub s : S

-- `hasRaw`, `hasBuckets` and `bucketBytes`, an int as a word. `rawCount` is the size of an arena
-- alone, of at most 1024 for each segment.
unfoldable pub kinds_yield : ℕ → ℕ → Segment → Bool × (Bool × ℕ) → (Bool × (Bool × ℕ)) × Bool
kinds_yield from to seg (raw, (buckets, bytes)) =
    if outside seg from to
    then ((raw, (buckets, bytes)), true)
    else if seg.kind == segment_sketches
    then ((true, (buckets, bytes)), true)
    else if seg.kind == segment_sketch_buckets
    then ((raw, (true, (bytes + seg.raw_len) % 2 ^ 64)), true)
    else ((raw, (buckets, bytes)), true)

-- The time that an observation is shown at.
abbrev pub output_time : ℕ → ℕ → ℕ
output_time span t = if ltb 0 span then bucket_of t span else t

module _ {S : Type 0} (s2 : Compressor) (lib : Math) (fp : Arith)
    (sort : List Float64 → List Float64) (from to span : ℕ)
    (yield : ℕ → Sketch → S → S × Bool) where
  -- The sketch of the observations at the current time.
  abbrev pub raw_sketch : RawState S → Sketch
  raw_sketch st = record {
    encoded = append_exact_values [] (sort st.exact);
    count = st.count;
    sum = st.sum;
    min = st.min;
    max = st.max;
    kind = sketch_exact;
  }

  unfoldable pub raw_flush : RawState S → RawState S × Bool
  raw_flush st =
      if st.count == 0
      then (st, true)
      else (let (s', more) = yield st.current (raw_sketch st) st.s in
          elim more [
            | false ↦ (record st { stopped = true; s = s' }, false)
            | true ↦ (record st { exact = []; count = 0; sum = zero_float; s = s' }, true)
          ])

  unfoldable pub raw_observe : ℕ → Float64 → RawState S → RawState S
  raw_observe time value st = record st {
    current = time;
    min = if st.count == 0 then value else float_min st.min value;
    max = if st.count == 0 then value else float_max st.max value;
    count = (st.count + 1) % 2 ^ 64;
    sum = fp.add st.sum value;
    exact = st.exact ++ (value ∷ []);
  }

  -- The loop over the rows of a segment, with the error that it leaves.
  unfoldable pub raw_rows : List ℕ → List Float64 → RawState S → (RawState S × Option Error) × Bool
  raw_rows (t ∷ ts) (v ∷ vs) st = elim (is_nan v || is_inf v) [
    | true ↦ ((st, some shape_codec), false)
    | false ↦ elim (within t from to) [
      | false ↦ raw_rows ts vs st
      | true ↦
          let time = output_time span t in
          elim (ltb 0 st.count && not (time == st.current)) [
            | false ↦ raw_rows ts vs (raw_observe time v st)
            | true ↦
                let (st', more) = raw_flush st in
                elim more [
                  | true ↦ raw_rows ts vs (raw_observe time v st')
                  | false ↦ ((st', none), false)
                ]
          ]
    ]
  ]
  raw_rows _ _ st = ((st, none), true)

  unfoldable pub raw_yield :
      Segment → RawState S × Option Error → (RawState S × Option Error) × Bool
  raw_yield seg (st, decode_err) =
      if not (seg.kind == segment_sketches) || outside seg from to
      then ((st, decode_err), true)
      else (let (raw, refused) = decode_into s2 seg in
          elim refused [
            | some e ↦ ((st, some e), false)
            | none ↦
                let ((ts, vs), verdict) = decode_sample_values raw seg.count in
                elim verdict [ some e ↦ ((st, some e), false) | none ↦ raw_rows ts vs st ]
          ])

  abbrev pub raw_start : S → RawState S
  raw_start s = record {
    exact = [];
    count = 0;
    sum = zero_float;
    min = zero_float;
    max = zero_float;
    current = 0;
    stopped = false;
    s = s;
  }

  unfoldable pub sketch_raw_range : List ℕ → S → S × Option Error
  sketch_raw_range series s =
      let ((st, decode_err), e) = scan raw_yield series (raw_start s, none) in
      elim e [
        | some e ↦ (st.s, some e)
        | none ↦ elim decode_err [
          | some e ↦ (st.s, some e)
          | none ↦ if st.stopped then (st.s, none) else ((raw_flush st).0.s, none)
        ]
      ]

  -- errStopSketch is the flag beside the reader's state; the error that stops the scan of a block
  -- is then not looked at.
  unfoldable pub bucket_step : ℕ → List ℕ → S × Bool → (S × Bool) × Option Error
  bucket_step t encoded (s, stop) = elim (within t from to) [
    | false ↦ ((s, stop), none)
    | true ↦ elim (stored_sketch encoded) [
      | err e ↦ ((s, stop), some e)
      | ok stored ↦
          let (s', more) = yield t stored s in
          elim more [ true ↦ ((s', stop), none) | false ↦ ((s', true), some short_codec) ]
    ]
  ]

  unfoldable pub bucket_yield :
      Segment → (S × Bool) × Option Error → ((S × Bool) × Option Error) × Bool
  bucket_yield seg (st, decode_err) =
      if not (seg.kind == segment_sketch_buckets) || outside seg from to
      then ((st, decode_err), true)
      else (let (raw, refused) = decode_into s2 seg in
          elim refused [
            | some e ↦ ((st, some e), false)
            | none ↦
                let (st', verdict) = scan_sketch_buckets bucket_step raw seg.count st in
                elim verdict [ some e ↦ ((st', some e), false) | none ↦ ((st', none), true) ]
          ])

  -- The arena has the capacity that the headers claim.
  unfoldable pub sketch_bucket_values : ℕ → List ℕ → S → S × Option Error
  sketch_bucket_values capacity series s = elim (ltb max_alloc capacity) [
    | true ↦ (s, some make_panic)
    | false ↦
        let (((s', stop), decode_err), e) = scan bucket_yield series ((s, false), none) in
        elim e [ some e ↦ (s', some e) | none ↦ if stop then (s', none) else (s', decode_err) ]
  ]

  abbrev pub Values : Type 0
  Values = List (ℕ × SketchValue)

  -- `get(t)` and a change of what it points to.
  abbrev pub at_time : ℕ → (SketchValue → SketchValue) → Values → Values
  at_time t change m = let k = output_time span t in insert k (change (get_or m k no_value)) m

  unfoldable pub mixed_rows : List ℕ → List Float64 → Values → Values × Option Error
  mixed_rows (t ∷ ts) (v ∷ vs) m = elim (is_nan v || is_inf v) [
    | true ↦ (m, some shape_codec)
    | false ↦ elim (within t from to) [
      | false ↦ mixed_rows ts vs m
      | true ↦ mixed_rows ts vs (at_time t (λ x. add_exact lib fp x v) m)
    ]
  ]
  mixed_rows _ _ m = (m, none)

  unfoldable pub mixed_bucket : ℕ → List ℕ → Values → Values × Option Error
  mixed_bucket t encoded m = elim (within t from to) [
    | false ↦ (m, none)
    | true ↦
        let (v, e) = merge_bytes lib fp (get_or m (output_time span t) no_value) encoded in
        (insert (output_time span t) v m, e)
  ]

  unfoldable pub mixed_yield : Segment → Values × Option Error → (Values × Option Error) × Bool
  mixed_yield seg (m, decode_err) =
      if not (seg.kind == segment_sketches || seg.kind == segment_sketch_buckets)
        || outside seg from to
      then ((m, decode_err), true)
      else (let (raw, refused) = decode_into s2 seg in
          elim refused [
            | some e ↦ ((m, some e), false)
            | none ↦
                let (m', verdict) : Values × Option Error =
                  if seg.kind == segment_sketches
                  then (let ((ts, vs), verdict) = decode_sample_values raw seg.count in
                      elim verdict [ some e ↦ (m, some e) | none ↦ mixed_rows ts vs m ])
                  else scan_sketch_buckets mixed_bucket raw seg.count m in
                elim verdict [ some e ↦ ((m', some e), false) | none ↦ ((m', none), true) ]
          ])

  -- The sketches at the times left.
  unfoldable pub yield_values : Values → List ℕ → S → S
  yield_values m [] s = s
  yield_values m (t ∷ ts) s =
      let (s', more) = yield t (encode sort (get_or m t no_value)) s in
      elim more [ true ↦ yield_values m ts s' | false ↦ s' ]

  unfoldable pub sketch_mixed_range : List ℕ → S → S × Option Error
  sketch_mixed_range series s =
      let ((m, decode_err), e) = scan mixed_yield series ([], none) in
      elim e [
        | some e ↦ (s, some e)
        | none ↦ elim decode_err [
          | some e ↦ (s, some e)
          | none ↦ (yield_values m (sorted_times m) s, none)
        ]
      ]

  unfoldable pub sketch_range : List ℕ → S → S × Option Error
  sketch_range series s =
      let ((raw, (buckets, bytes)), e) = scan (kinds_yield from to) series (false, (false, 0)) in
      elim e [
        | some e ↦ (s, some e)
        | none ↦
            if not raw && not buckets
            then (s, none)
            else if not buckets
            then sketch_raw_range series s
            else if not raw && span == 0
            then sketch_bucket_values bytes series s
            else sketch_mixed_range series s
      ]
