-- ===== src/Sketches/Encoded.antt =====
-- The encoding of a sketch in sketch_state.go: what a sketch bucket holds.
use Prim.Native.Nat.{bit_xor}
use trend.Prelude.{
  ℕ, zero, suc, ◌+◌, ◌-◌, ◌*◌, ◌/◌, ◌%◌, ◌^◌, Bool, true, false, Option, none, some,
}
use trend.Prelude.{List, [], ◌∷◌, ◌++◌, length, ltb, leb, ◌==◌, if◌then◌else◌}
use trend.Float.{Float64, Arith}
use trend.Maps.{insert, get_or, keys}
use trend.Codec.Reader.{
  Error, make_panic, large_codec, varint_codec, shape_codec, Reader, ReaderM, ready, u64, max_int,
  max_alloc, byte, uvarint, count, float_xor, float_of_reversed, done,
}
use trend.Codec.Writer.{append_uvarint, sub64, append_float, append_float_xor}
use trend.Codec.Series.{Result, ok, err}
use trend.Sketches.Value.{
  sketch_max_bins, bins, SketchValue, no_value, signed, exact_values, Math, approximate,
  merge_value,
}

abbrev pub sketch_exact : ℕ
sketch_exact = 1

abbrev pub sketch_approx : ℕ
sketch_approx = 2

abbrev pub sketch_exact_xor : ℕ
sketch_exact_xor = 3

-- slices.Sort on int values.
unfoldable pub insert_int : ℕ → List ℕ → List ℕ
insert_int x [] = x ∷ []
insert_int x (y ∷ ys) = if leb (signed x) (signed y) then x ∷ (y ∷ ys) else y ∷ insert_int x ys

unfoldable pub sort_ints : List ℕ → List ℕ
unfolding insert_int
sort_ints [] = []
sort_ints (x ∷ xs) = insert_int x (sort_ints xs)

unfoldable pub sorted_int_keys : List (ℕ × ℕ) → List ℕ
unfolding sort_ints
sorted_int_keys m = sort_ints (keys m)

-- `value << 1` and `value >> 63` on int64, as words.
unfoldable pub append_varint : List ℕ → ℕ → List ℕ
append_varint dst value =
    append_uvarint dst (bit_xor (u64 (value * 2)) (if ltb value (2 ^ 63) then 0 else 2 ^ 64 - 1))

-- The keys behind the first one.
unfoldable pub append_sketch_bins_loop : List (ℕ × ℕ) → List ℕ → ℕ → List ℕ → List ℕ
append_sketch_bins_loop m dst previous [] = dst
append_sketch_bins_loop m dst previous (key ∷ keys) =
    let dst = append_uvarint dst (sub64 key previous) in
    let dst = append_uvarint dst (get_or m key 0) in append_sketch_bins_loop m dst key keys

unfoldable pub append_sketch_bins : List ℕ → List (ℕ × ℕ) → List ℕ
unfolding append_sketch_bins_loop sorted_int_keys
append_sketch_bins dst m =
    let keys = sorted_int_keys m in
    let dst = append_uvarint dst (length keys) in
    elim keys [
      | [] ↦ dst
      | key ∷ rest ↦
          let dst = append_varint dst key in
          let dst = append_uvarint dst (get_or m key 0) in append_sketch_bins_loop m dst key rest
    ]

unfoldable pub append_sketch_header : List ℕ → ℕ → SketchValue → List ℕ
append_sketch_header dst kind v =
    let dst = append_uvarint (dst ++ (kind ∷ [])) v.count in
    let dst = (append_float dst v.sum 0).0 in
    let dst = (append_float dst v.min 0).0 in (append_float dst v.max 0).0

unfoldable pub append_sketch_exact : List ℕ → SketchValue → List ℕ
unfolding append_sketch_header
append_sketch_exact dst v =
    append_float_xor (append_sketch_header dst sketch_exact v) (exact_values v)

unfoldable pub append_sketch_approx_data : List ℕ → SketchValue → List ℕ
unfolding append_sketch_bins
append_sketch_approx_data dst v =
    append_sketch_bins (append_sketch_bins (append_uvarint dst v.zero) v.negative) v.positive

unfoldable pub append_sketch_approx : List ℕ → SketchValue → List ℕ
unfolding append_sketch_header append_sketch_approx_data
append_sketch_approx dst v = append_sketch_approx_data (append_sketch_header dst sketch_approx v) v

-- `value >> 1` and `-(value & 1)` on int64, as words.
unfoldable pub varint : ReaderM ℕ
varint r =
    let (value, r') = uvarint r in
    (bit_xor (value / 2) (if value % 2 == 0 then 0 else 2 ^ 64 - 1), r')

unfoldable pub float : ReaderM Float64
float r = let (bits, r') = uvarint r in (float_of_reversed bits, r')

-- `yield` works on the state `s` that the closure of the caller captures. An int has 64 bits, so
-- that the test of its conversion never fails.
module _ {S : Type 0} (yield : ℕ → ℕ → S → S × Bool) where
  -- The rounds left, whether it is the first, and the key of the round before.
  unfoldable pub sketch_bins_loop : ℕ → Bool → ℕ → Reader → S → S × Reader
  sketch_bins_loop zero first current r s = (s, r)
  sketch_bins_loop (suc n) first current r s =
      let (key, r) =
        if first then varint r else (let (d, r) = uvarint r in (u64 (current + d), r)) in
      let (amount, r) = uvarint r in
      elim (amount == 0) [
        | true ↦ (s, record r { err = some shape_codec })
        | false ↦
            let (s', more) = yield key amount s in
            elim more [ true ↦ sketch_bins_loop n false key r s' | false ↦ (s', r) ]
      ]

  unfoldable pub sketch_bins_each : Reader → S → S × Reader
  sketch_bins_each r s =
      let (n, r) = count r in
      if ltb sketch_max_bins n
      then (s, record r { err = some large_codec })
      else sketch_bins_loop n true 0 r s

abbrev pub keep_bin : ℕ → ℕ → List (ℕ × ℕ) → List (ℕ × ℕ) × Bool
keep_bin key amount m = (insert key amount m, true)

unfoldable pub sketch_bins : ReaderM (List (ℕ × ℕ))
sketch_bins r = sketch_bins_each keep_bin r []

unfoldable pub sum_bins : List (ℕ × ℕ) → ℕ
sum_bins [] = 0
sum_bins ((k, n) ∷ m) = (n + sum_bins m) % 2 ^ 64

pub record Header : Type 0 where
  pub kind : ℕ
  pub value : SketchValue
  pub rest : Reader

-- A kind of 0, as for no bytes at all, ends `decodeSketch`.
unfoldable pub decode_sketch_header : List ℕ → Header × Option Error
decode_sketch_header [] = (record { kind = 0; value = no_value; rest = ready [] }, none)
decode_sketch_header (b ∷ bs) =
    let (kind, r) = byte (ready (b ∷ bs)) in
    let (n, r) = uvarint r in
    let (sum, r) = float r in
    let (min, r) = float r in
    let (max, r) = float r in
    elim r.err [
      | some e ↦ (record { kind = 0; value = no_value; rest = ready [] }, some e)
      | none ↦ (
        record {
          kind = kind;
          value = record no_value { count = n; sum = sum; min = min; max = max };
          rest = r;
        },
        none,
      )
    ]

-- The checks behind the payload.
unfoldable pub check_sketch : SketchValue → Result SketchValue
check_sketch v =
    if ltb sketch_max_bins (bins v)
    then err large_codec
    else if v.count
        == (length (exact_values v) + v.zero + sum_bins v.negative + sum_bins v.positive) % 2 ^ 64
    then ok v
    else err shape_codec

-- The payload of a kind, into a value with the fields of the header.
unfoldable pub decode_payload : ℕ → SketchValue → Reader → Result (SketchValue × Reader)
decode_payload kind v r =
    if kind == sketch_exact
    then (if ltb max_int v.count
        then err large_codec
        else if ltb max_alloc (v.count * 8)
        then err make_panic
        else (let (values, r) = float_xor v.count r in ok (record v { exact = some values }, r)))
    else if kind == sketch_approx
    then (let (zeros, r) = uvarint r in
        let (negative, r) = sketch_bins r in
        let (positive, r) = sketch_bins r in
        ok (record v { zero = zeros; negative = negative; positive = positive }, r))
    else err varint_codec

unfoldable pub decode_sketch : List ℕ → Result SketchValue
decode_sketch bs =
    let (header, refused) = decode_sketch_header bs in
    elim refused [
      | some e ↦ err e
      | none ↦ elim (header.kind == 0) [
        | true ↦ ok header.value
        | false ↦ elim (decode_payload header.kind header.value header.rest) [
          | err e ↦ err e
          | ok (v, r) ↦ elim (done r) [ some e ↦ err e | none ↦ check_sketch v ]
        ]
      ]
    ]

module _ (lib : Math) where
  unfoldable pub encode_approx : SketchValue → List ℕ
  encode_approx v = append_sketch_approx [] (approximate lib v)

  unfoldable pub merge_bytes : Arith → SketchValue → List ℕ → SketchValue × Option Error
  merge_bytes fp v bs = elim (decode_sketch bs) [
    | err e ↦ (v, some e)
    | ok other ↦ (merge_value lib fp v other, none)
  ]
