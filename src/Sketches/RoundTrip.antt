-- ===== src/Sketches/RoundTrip.antt =====
-- A sketch in bins that is written and read back: appendSketchApprox and decodeSketch in
-- sketch_state.go.
use Prim.Native.Nat.{bit_xor}
use trend.Prelude.{ℕ, ◌^◌, ◌≤◌, ◌<◌, ◌≡◌, ◌≢◌, refl, ap, ◌∙◌, arith}
use trend.Prelude.{none, List, [], ◌∷◌, ◌++◌, append-nil, append_assoc, length, All}
use trend.Float.{Float64, IsFloat}
use trend.Maps.{lookup, keys}
use trend.Maps.Laws.{IsDistinct}
use trend.Codec.Reader.{ready, byte, uvarint, done}
use trend.Codec.Writer.{append_float}
use trend.Codec.Varint
use trend.Codec.Varint.{Reads, append_uvarint-varint, uvarint-Reads}
use trend.Codec.Columns.{reversed, reversed-lt, float_of_reversed-reversed}
use trend.Codec.Series.{ok}
use trend.Sketches.Value.{sketch_max_bins, SketchValue, no_value, Math, approximate}
use trend.Sketches.Encoded.{
  sketch_approx, append_sketch_header, append_sketch_approx_data, append_sketch_approx, float,
  sketch_bins, Header, decode_sketch_header, check_sketch, decode_payload, decode_sketch,
  encode_approx,
}
use trend.Sketches.Bounds.{held, IsSketch}
use trend.Sketches.Order.{
  sum_bins-sorted_bins, length-sorted_bins, sorted_bins-IsDistinct, lookup-sorted_bins,
  sorted_bins-IsBin,
}
use trend.Sketches.Bytes.{
  bit_xor_ones, IsBin, bins_bytes, sorted_bins, append_sketch_bins-bins_bytes,
  sketch_bins-bins_bytes,
}

-- A sketch in bins that the encoding has room for.
pub record IsEncodable (v : SketchValue) : Type 0 where
  pub sketch : IsSketch v
  pub in_bins : v.exact ≡ none
  pub zero_fits : v.zero < 2 ^ 64
  pub sum_fits : IsFloat v.sum
  pub min_fits : IsFloat v.min
  pub max_fits : IsFloat v.max
  pub negative_bins : All IsBin v.negative
  pub positive_bins : All IsBin v.positive

-- The same sketch with its bins in the order of their keys.
abbrev pub in_order : SketchValue → SketchValue
in_order v = record v {
  exact = none;
  negative = sorted_bins v.negative;
  positive = sorted_bins v.positive;
}

float_bytes : Float64 → List ℕ
float_bytes x = Varint.varint (bit_xor (reversed x) 0)

abbrev header_bytes : SketchValue → List ℕ
header_bytes v =
    Varint.varint v.count ++ (float_bytes v.sum ++ (float_bytes v.min ++ float_bytes v.max))

abbrev payload_bytes : SketchValue → List ℕ
payload_bytes v =
    Varint.varint v.zero
    ++ (bins_bytes (sorted_bins v.negative) ++ bins_bytes (sorted_bins v.positive))

append_sketch_approx-bytes :
    (v : SketchValue)
    → append_sketch_approx [] v ≡ sketch_approx ∷ (header_bytes v ++ payload_bytes v)
unfolding append_sketch_approx append_sketch_header append_sketch_approx_data append_float
    float_bytes
append_sketch_approx-bytes v =
    let kind = sketch_approx ∷ [] in
    let c = Varint.varint v.count in
    let z = Varint.varint v.zero in
    let n = bins_bytes (sorted_bins v.negative) in
    let p = bins_bytes (sorted_bins v.positive) in
    let s = float_bytes v.sum in
    let lo = float_bytes v.min in
    let hi = float_bytes v.max in
    rw
      (
        append_uvarint-varint kind v.count,
        append_uvarint-varint (kind ++ c) (bit_xor (reversed v.sum) 0),
        append_uvarint-varint ((kind ++ c) ++ s) (bit_xor (reversed v.min) 0),
        append_uvarint-varint (((kind ++ c) ++ s) ++ lo) (bit_xor (reversed v.max) 0),
        append_uvarint-varint ((((kind ++ c) ++ s) ++ lo) ++ hi) v.zero,
        append_sketch_bins-bins_bytes v.negative (((((kind ++ c) ++ s) ++ lo) ++ hi) ++ z),
        append_sketch_bins-bins_bytes v.positive ((((((kind ++ c) ++ s) ++ lo) ++ hi) ++ z) ++ n),
      )
      (simp append_assoc refl)

count-lt : (v : SketchValue) → IsEncodable v → v.count < 2 ^ 64
unfolding held
count-lt v h = omega (arith, h.sketch.counted)

-- `sketchBins` on what is written for a map.
bins-Reads :
    (m : List (ℕ × ℕ)) (rest : List ℕ)
    → length m ≤ sketch_max_bins
    → IsDistinct (keys m)
    → All IsBin m
    → sketch_bins (ready (bins_bytes (sorted_bins m) ++ rest)) ≡ (sorted_bins m, ready rest)
bins-Reads m rest b d h =
    sketch_bins-bins_bytes (sorted_bins m) rest (omega (arith, b, length-sorted_bins m))
      (sorted_bins-IsDistinct m d) (sorted_bins-IsBin m h)

float-Reads : (x : Float64) → IsFloat x → Reads float (float_bytes x) x
unfolding float float_bytes
float-Reads x h rest =
    rw
      (
        (bit_xor_ones 64 (reversed x) (reversed-lt x)).0,
        uvarint-Reads (reversed x) (reversed-lt x) rest,
        float_of_reversed-reversed x h,
      )
      refl

-- The header behind its first byte.
header_steps :
    (bs a b c rest : List ℕ) (n : ℕ) (s lo hi : Float64)
    → uvarint (ready bs) ≡ (n, ready a)
    → float (ready a) ≡ (s, ready b)
    → float (ready b) ≡ (lo, ready c)
    → float (ready c) ≡ (hi, ready rest)
    → decode_sketch_header (sketch_approx ∷ bs) ≡ (
      record {
        kind = sketch_approx;
        value = record no_value { count = n; sum = s; min = lo; max = hi };
        rest = ready rest;
      },
      none,
    )
unfolding decode_sketch_header byte
header_steps bs a b c rest n s lo hi h i j k = ground (arith, h, i, j, k)

header-Reads :
    (v : SketchValue) (rest : List ℕ)
    → IsEncodable v
    → decode_sketch_header (sketch_approx ∷ (header_bytes v ++ rest)) ≡ (
      record {
        kind = sketch_approx;
        value = record no_value { count = v.count; sum = v.sum; min = v.min; max = v.max };
        rest = ready rest;
      },
      none,
    )
header-Reads v rest h =
    let s = float_bytes v.sum in
    let lo = float_bytes v.min in
    let hi = float_bytes v.max in
    rw
      (
        append_assoc (Varint.varint v.count) (s ++ (lo ++ hi)) rest,
        append_assoc s (lo ++ hi) rest,
        append_assoc lo hi rest,
      )
      (header_steps (Varint.varint v.count ++ (s ++ (lo ++ (hi ++ rest))))
        (s ++ (lo ++ (hi ++ rest))) (lo ++ (hi ++ rest)) (hi ++ rest) rest v.count v.sum v.min v.max
        (uvarint-Reads v.count (count-lt v h) (s ++ (lo ++ (hi ++ rest))))
        (float-Reads v.sum h.sum_fits (lo ++ (hi ++ rest)))
        (float-Reads v.min h.min_fits (hi ++ rest)) (float-Reads v.max h.max_fits rest))

payload-Reads :
    (v w : SketchValue)
    → IsEncodable v
    → decode_payload sketch_approx w (ready (payload_bytes v))
      ≡ ok (
        record w {
          zero = v.zero;
          negative = sorted_bins v.negative;
          positive = sorted_bins v.positive;
        },
        ready [],
      )
unfolding decode_payload
payload-Reads v w h =
    let n = bins_bytes (sorted_bins v.negative) in
    let p = bins_bytes (sorted_bins v.positive) in
    rw
      (
        uvarint-Reads v.zero h.zero_fits (n ++ p),
        bins-Reads v.negative p (omega (arith, h.sketch.bounded)) h.sketch.maps.negative_keys
            h.negative_bins,
        rw (append-nil p) at (
            bins-Reads v.positive [] (omega (arith, h.sketch.bounded)) h.sketch.maps.positive_keys
              h.positive_bins),
      )
      refl

check_sketch-in_order :
    (v : SketchValue) → IsEncodable v → check_sketch (in_order v) ≡ ok (in_order v)
unfolding check_sketch held
check_sketch-in_order v h = ground (
  arith,
  h.in_bins,
  h.sketch.counted,
  h.sketch.bounded,
  sum_bins-sorted_bins v.negative h.sketch.maps.negative_keys,
  sum_bins-sorted_bins v.positive h.sketch.maps.positive_keys,
  length-sorted_bins v.negative,
  length-sorted_bins v.positive,
)

-- The steps of `decodeSketch` that do not fail.
decode_steps :
    (bs : List ℕ) (header : Header) (v : SketchValue)
    → decode_sketch_header bs ≡ (header, none)
    → header.kind ≢ 0
    → decode_payload header.kind header.value header.rest ≡ ok (v, ready [])
    → decode_sketch bs ≡ check_sketch v
unfolding decode_sketch done
decode_steps bs header v h k p = ground (arith, h, k, p)

decode_sketch-append_sketch_approx :
    (v : SketchValue) → IsEncodable v → decode_sketch (append_sketch_approx [] v) ≡ ok (in_order v)
unfolding decode_sketch done
decode_sketch-append_sketch_approx v h =
    let w : SketchValue = record no_value {
      count = v.count;
      sum = v.sum;
      min = v.min;
      max = v.max;
    } in
    let bs = sketch_approx ∷ (header_bytes v ++ payload_bytes v) in
    let header : Header = record {
      kind = sketch_approx;
      value = w;
      rest = ready (payload_bytes v);
    } in
    ap decode_sketch (append_sketch_approx-bytes v)
    ∙ decode_steps bs header (in_order v) (header-Reads v (payload_bytes v) h)
        (λ (e : sketch_approx ≡ 0). absurd (omega (arith, e))) (payload-Reads v w h)
    ∙ check_sketch-in_order v h

-- A sketch that `encodeApprox` puts into bins and writes, where they fit the encoding, is read back
-- by `decodeSketch` with its bins in the order of their keys, under which every key finds the
-- amount that it had.
pub decode_sketch-encode_approx :
    (lib : Math) (v : SketchValue) (k : ℕ)
    → IsEncodable (approximate lib v)
    → (decode_sketch (encode_approx lib v) ≡ ok (in_order (approximate lib v)))
      × (lookup k (in_order (approximate lib v)).negative ≡ lookup k (approximate lib v).negative)
      × (lookup k (in_order (approximate lib v)).positive ≡ lookup k (approximate lib v).positive)
unfolding encode_approx
decode_sketch-encode_approx lib v k h =
    let w = approximate lib v in
    (
      decode_sketch-append_sketch_approx w h,
      lookup-sorted_bins k w.negative,
      lookup-sorted_bins k w.positive,
    )
