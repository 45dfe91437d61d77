-- ===== src/Sketches/Handle.antt =====
-- Sketch of sketches.go: what a read hands out, and what is asked of it; `encode` and `storedSketch`
-- of sketch_state.go. `slices.Sort` on floats and the conversion of a float to uint64 are
-- parameters.
use trend.Prelude.{
  ℕ, zero, suc, ◌+◌, ◌-◌, ◌*◌, ◌/◌, ◌%◌, ◌^◌, Bool, true, false, ◌&&◌, ◌||◌, Option, none, some,
}
use trend.Prelude.{List, [], ◌∷◌, ◌++◌, foldl, length, take, drop, ltb, leb, ◌==◌, if◌then◌else◌}
use trend.Float.{Float64, Arith, is_nan, is_zero, less, float_min, float_max, zero_float}
use trend.Codec.Reader.{
  Error, large_codec, varint_codec, shape_codec, Reader, ready, max_int, max_alloc, uvarint,
  float_xor, done,
}
use trend.Codec.Segment.{segment_size}
use trend.Codec.Series.{Result, ok, err}
use trend.Sketches.Value.{sketch_max_bins, SketchValue, Math, sketch_bin_value}
use trend.Sketches.Encoded.{
  sketch_exact, sketch_approx, sketch_exact_xor, append_sketch_approx_data, sketch_bins_each,
  decode_sketch_header,
}

pub record Sketch : Type 0 where
  pub encoded : List ℕ
  pub count : ℕ
  pub sum : Float64
  pub min : Float64
  pub max : Float64
  pub kind : ℕ

-- math.NaN(), 1 and -v.
abbrev pub nan : Float64
nan = record { bits = 0x7ff8_0000_0000_0001 }

abbrev pub one_float : Float64
one_float = record { bits = 0x3ff0_0000_0000_0000 }

abbrev pub negate : Float64 → Float64
negate v = record { bits = (v.bits + 2 ^ 63) % 2 ^ 64 }

-- The bytes of a uint64, the lowest first.
unfoldable pub little_endian : ℕ → ℕ → List ℕ
little_endian zero v = []
little_endian (suc n) v = v % 256 ∷ little_endian n (v / 256)

unfoldable pub of_little_endian : List ℕ → ℕ
of_little_endian [] = 0
of_little_endian (b ∷ bs) = b + 256 * of_little_endian bs

unfoldable pub append_exact_values : List ℕ → List Float64 → List ℕ
append_exact_values dst values = foldl (λ out v. out ++ little_endian 8 v.bits) dst values

unfoldable pub sketch_min : Sketch → Float64
sketch_min h = if h.count == 0 then nan else h.min

unfoldable pub sketch_max : Sketch → Float64
sketch_max h = if h.count == 0 then nan else h.max

unfoldable pub sketch_mean : Arith → Sketch → Float64
sketch_mean fp h = if h.count == 0 then nan else fp.div h.sum (fp.of_uint64 h.count)

unfoldable pub exact_quantile : List ℕ → ℕ → Float64
exact_quantile encoded rank =
    if rank == 0 || ltb (length encoded / 8) rank
    then nan
    else record { bits = of_little_endian (take 8 (drop ((rank - 1) * 8) encoded)) }

-- An element of a slice. `none` is a panic.
abbrev pub at_index : List Float64 → ℕ → Option Float64
at_index [] n = none
at_index (x ∷ xs) zero = some x
at_index (x ∷ xs) (suc n) = at_index xs n

unfoldable pub exact_xor_quantile :
    (List Float64 → List Float64) → Reader → ℕ → ℕ → Option Float64 × Option Error
exact_xor_quantile sort r count rank =
    if ltb max_int count
    then (some zero_float, some large_codec)
    else if ltb segment_size count && ltb max_alloc (count * 8)
    then (none, none)
    else (let (values, r') = float_xor count r in
        (elim rank [ zero ↦ none | suc n ↦ at_index (sort values) n ], r'.err))

-- The bins and the observations that `sketchBinsEach` counts.
abbrev pub total_yield : ℕ → ℕ → ℕ → ℕ × Bool
total_yield key n total = ((total + n) % 2 ^ 64, true)

abbrev pub tally_yield : ℕ → ℕ → ℕ × ℕ → (ℕ × ℕ) × Bool
tally_yield key n (total, bins) = (((total + n) % 2 ^ 64, bins + 1), true)

-- A `uvarint` for each observation, of which nothing is kept.
unfoldable pub skip_uvarints : ℕ → Reader → Reader
skip_uvarints zero r = r
skip_uvarints (suc n) r = skip_uvarints n (uvarint r).1

unfoldable pub sketch_of : SketchValue → ℕ → List ℕ → Sketch
sketch_of v kind encoded = record {
  encoded = encoded;
  count = v.count;
  sum = v.sum;
  min = v.min;
  max = v.max;
  kind = kind;
}

-- The count of the payload, the bins and the reader behind them.
unfoldable pub stored_counts : ℕ → ℕ → Reader → Result ((ℕ × ℕ) × Reader)
stored_counts kind count r =
    if kind == sketch_exact
    then ok ((count, 0), skip_uvarints count r)
    else if kind == sketch_approx
    then (let (zeros, r) = uvarint r in
        let (s, r) = sketch_bins_each tally_yield r (zeros, 0) in
        let (s, r) = sketch_bins_each tally_yield r s in
        if ltb sketch_max_bins s.1 then err large_codec else ok (s, r))
    else err varint_codec

unfoldable pub stored_sketch : List ℕ → Result Sketch
stored_sketch encoded =
    let (header, refused) = decode_sketch_header encoded in
    elim refused [
      | some e ↦ err e
      | none ↦ elim (stored_counts header.kind header.value.count header.rest) [
        | err e ↦ err e
        | ok ((count, bins), r) ↦ elim (done r) [
          | some e ↦ err e
          | none ↦
              if count == header.value.count
              then ok (
                  sketch_of header.value
                    (if header.kind == sketch_exact then sketch_exact_xor else header.kind)
                    header.rest.input)
              else err shape_codec
        ]
      ]
    ]

unfoldable pub encode : (List Float64 → List Float64) → SketchValue → Sketch
encode sort v = elim v.exact [
  | some values ↦ sketch_of v sketch_exact (append_exact_values [] (sort values))
  | none ↦ sketch_of v sketch_approx (append_sketch_approx_data [] v)
]

module _ (lib : Math) where
  -- The bins of the negative values, up to the target.
  abbrev pub below_yield : ℕ → ℕ → ℕ → ℕ × Float64 → (ℕ × Float64) × Bool
  below_yield target key n (cumulative, value) =
      let cumulative = (cumulative + n) % 2 ^ 64 in
      ((cumulative, negate (sketch_bin_value lib key)), ltb cumulative target)

  -- The bins of the positive values, with the rank left.
  abbrev pub above_yield : ℕ → ℕ → ℕ × Float64 → (ℕ × Float64) × Bool
  above_yield key n (rank, value) =
      let value = sketch_bin_value lib key in
      if leb rank n then ((rank, value), false) else ((rank - n, value), true)

  unfoldable pub approximate_quantile : Reader → ℕ → Float64 × Option Error
  approximate_quantile r rank =
      let (zeros, negative) = uvarint r in
      let (total, r) = sketch_bins_each total_yield negative 0 in
      if leb rank total
      then (let target = (total - rank + 1) % 2 ^ 64 in
          let (s, r) = sketch_bins_each (below_yield target) negative (0, zero_float) in
          (s.1, r.err))
      else (let rank = rank - total in
          if leb rank zeros
          then (zero_float, r.err)
          else (let (s, r) = sketch_bins_each above_yield r (rank - zeros, zero_float) in
              (s.1, r.err)))

  -- `none` is a panic.
  module _ (fp : Arith) (sort : List Float64 → List Float64) (to_uint64 : Float64 → ℕ) where
    unfoldable pub quantile : Sketch → Float64 → Option Float64
    quantile h q =
        let r = ready h.encoded in
        let rank = to_uint64 (lib.ceil (lib.mul q (fp.of_uint64 h.count))) in
        let clamp : Float64 → Float64 = λ v. float_min (float_max v h.min) h.max in
        let answer : Option Float64 × Option Error → Option Float64 = λ a. elim a.0 [
          | none ↦ none
          | some v ↦ elim a.1 [ some _ ↦ some nan | none ↦ some (clamp v) ]
        ] in
        if h.count == 0 || (is_nan q || (less q zero_float || less one_float q))
        then some nan
        else if is_zero q
        then some h.min
        else if q.bits == one_float.bits
        then some h.max
        else if h.kind == sketch_exact
        then answer (some (exact_quantile h.encoded rank), none)
        else if h.kind == sketch_exact_xor
        then answer (exact_xor_quantile sort r h.count rank)
        else if h.kind == sketch_approx
        then (let (v, e) = approximate_quantile r rank in answer (some v, e))
        else some nan
