-- ===== src/Codec/Segment.antt =====
-- Segments of codec.go: a header and a compressed block, and `scan` over a whole series.
use trend.Prelude.{ℕ, zero, suc, ◌^◌, ◌<◌, ◌≡◌, Bool, true, false, ◌&&◌, ◌||◌, Option, none, some}
use trend.Prelude.{List, [], ◌∷◌, ◌++◌, length, ltb, leb, ◌==◌, if◌then◌else◌}
use trend.Data.{Pending}
use trend.Codec.Reader.{
  Error, short_codec, large_codec, varint_codec, bad_block, bad_version, Reader, ReaderM, ready,
  pure, ◌>>=◌, byte, bytes, uvarint, count,
}
use trend.Codec.Writer.{append_uvarint}
use trend.Codec.Block.{
  decode_samples, decode_counters, decode_sketches, decode_sample_buckets, decode_counter_buckets,
  decode_sketch_buckets,
}

abbrev pub version : ℕ
version = 4

abbrev pub segment_size : ℕ
segment_size = 1024

abbrev pub segment_samples : ℕ
segment_samples = 1

abbrev pub segment_counters : ℕ
segment_counters = 2

abbrev pub segment_sample_buckets : ℕ
segment_sample_buckets = 3

abbrev pub segment_counter_buckets : ℕ
segment_counter_buckets = 4

abbrev pub segment_sketches : ℕ
segment_sketches = 5

abbrev pub segment_sketch_buckets : ℕ
segment_sketch_buckets = 6

-- The package s2. `decode` answers `none` where it returns an error.
pub record Compressor : Type 0 where
  pub encode : List ℕ → List ℕ
  pub decode : List ℕ → Option (List ℕ)

-- Blocks below 4 GB come back, and grow by less than that.
pub record IsLossless (s2 : Compressor) : Type 0 where
  pub decode-encode : (raw : List ℕ) → length raw < 2 ^ 32 → s2.decode (s2.encode raw) ≡ some raw
  pub encode-length : (raw : List ℕ) → length raw < 2 ^ 32 → length (s2.encode raw) < 2 ^ 33

-- `block` is the field data.
pub record Segment : Type 0 where
  pub kind : ℕ
  pub from : ℕ
  pub to : ℕ
  pub count : ℕ
  pub raw_len : ℕ
  pub block : List ℕ

unfoldable pub read_segment : ReaderM Segment
read_segment = do
  kind ← byte
  from ← uvarint
  to ← uvarint
  n ← count
  raw_len ← count
  zip_len ← count
  block ← bytes zip_len
  pure (record { kind = kind; from = from; to = to; count = n; raw_len = raw_len; block = block })

abbrev pub is_kind : ℕ → Bool
is_kind k = leb segment_samples k && leb k segment_sketch_buckets

-- The tests of a header once it is read.
unfoldable pub check_segment : Segment → Option Error
check_segment seg =
    if (seg.count == 0 || ltb segment_size seg.count) || ltb seg.to seg.from
    then some large_codec
    else if is_kind seg.kind
    then none
    else some varint_codec

-- `yield` works on the state that the closure of the caller captures, and says whether to go on.
module _ {ℓ} {S : Type ℓ} (yield : Segment → S → S × Bool) where
  -- The loop of `scan`. A round takes a byte at least, so the length of the input is fuel enough.
  unfoldable pub scan_loop : ℕ → Reader → S → S × Option Error
  scan_loop zero r s = (s, r.err)
  scan_loop (suc n) r s = elim r.err [
    | some e ↦ (s, some e)
    | none ↦ elim r.input [
      | [] ↦ (s, none)
      | b ∷ bs ↦
          let (seg, r') = read_segment r in
          elim r'.err [
            | some e ↦ (s, some e)
            | none ↦ elim (check_segment seg) [
              | some e ↦ (s, some e)
              | none ↦
                  let (s', more) = yield seg s in
                  elim more [ true ↦ scan_loop n r' s' | false ↦ (s', none) ]
            ]
          ]
    ]
  ]

  unfoldable pub scan : List ℕ → S → S × Option Error
  scan [] s = (s, none)
  scan (v ∷ rest) s =
      if v == version then scan_loop (length rest) (ready rest) s else (s, some (bad_version v))

module _ (s2 : Compressor) where
  unfoldable pub append_segment : List ℕ → ℕ → ℕ → ℕ → ℕ → List ℕ → List ℕ
  append_segment dst kind from to count raw =
      let zip = s2.encode raw in
      let dst = dst ++ (kind ∷ []) in
      let dst = append_uvarint dst from in
      let dst = append_uvarint dst to in
      let dst = append_uvarint dst count in
      let dst = append_uvarint dst (length raw) in
      let dst = append_uvarint dst (length zip) in dst ++ zip

  unfoldable pub decode_into : Segment → List ℕ × Option Error
  decode_into seg = elim (s2.decode seg.block) [
    | none ↦ ([], some bad_block)
    | some raw ↦ if length raw == seg.raw_len then (raw, none) else ([], some short_codec)
  ]

-- The decoder of a kind of segment, run on a part of the pending state.
unfoldable pub apply_raw : Segment → Pending → List ℕ → Pending × Option Error
apply_raw seg out raw =
    if seg.kind == segment_samples
    then (let (d, e) = decode_samples raw seg.count out.samples in (record out { samples = d }, e))
    else if seg.kind == segment_counters
    then (let (d, e) = decode_counters raw seg.count out.counters in
        (record out { counters = d }, e))
    else if seg.kind == segment_sample_buckets
    then (let (d, e) = decode_sample_buckets raw seg.count out.samples in
        (record out { samples = d }, e))
    else if seg.kind == segment_counter_buckets
    then (let (d, e) = decode_counter_buckets raw seg.count out.counters in
        (record out { counters = d }, e))
    else if seg.kind == segment_sketches
    then (let (d, e) = decode_sketches raw seg.count out.sketches in
        (record out { sketches = d }, e))
    else if seg.kind == segment_sketch_buckets
    then (let (d, e) = decode_sketch_buckets raw seg.count out.sketches in
        (record out { sketches = d }, e))
    else (out, some varint_codec)
