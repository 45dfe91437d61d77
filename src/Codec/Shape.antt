-- ===== src/Codec/Shape.antt =====
-- The shape of what the decoders of block.go and `pending` of codec.go give.
use Prim.Native.Nat.{bit_xor}
use trend.Prelude.{ℕ, zero, suc, ◌+◌, ◌≡◌, refl, arith, Bool, inl, inr, Option, none}
use trend.Prelude.{List, length, length-append}
use trend.Data.{Pending, SampleData, CounterData, SketchData, no_pending}
use trend.Codec.Reader.{
  Error, Reader, ready, u64, uvarint, delta_loop, delta, float_xor_loop, float_xor,
}
use trend.Codec.Block.{
  sample_columns, decode_sample_raw, counter_columns, decode_counter_raw, decode_samples,
  decode_counters, decode_sketches, decode_sample_buckets, decode_counter_buckets,
  decode_sketch_buckets, scan_sketch_buckets_loop, scan_sketch_buckets, keep_bucket, sketch_entry,
}
use trend.Codec.Segment.{Compressor, Segment, scan, decode_into, apply_raw}
use trend.Codec.Series.{ok, pending_yield, pending, valid_pending}
use trend.Reads.Invariant.{Keeps, Ends, scan-Ends}

length-delta_loop : (n prev : ℕ) (r : Reader) → length (delta_loop n prev r).0 ≡ n
unfolding delta_loop
length-delta_loop zero prev r = refl
length-delta_loop (suc n) prev r =
    let (d, r') = uvarint r in omega (arith, length-delta_loop n (u64 (prev + d)) r')

length-delta : (n : ℕ) (r : Reader) → length (delta n r).0 ≡ n
unfolding delta
length-delta n r = length-delta_loop n 0 r

length-float_xor_loop : (n prev : ℕ) (r : Reader) → length (float_xor_loop n prev r).0 ≡ n
unfolding float_xor_loop
length-float_xor_loop zero prev r = refl
length-float_xor_loop (suc n) prev r =
    let (d, r') = uvarint r in omega (arith, length-float_xor_loop n (bit_xor prev d) r')

length-float_xor : (n : ℕ) (r : Reader) → length (float_xor n r).0 ≡ n
unfolding float_xor
length-float_xor n r = length-float_xor_loop n 0 r

-- Columns of one length.
abbrev pub IsSampleShape : SampleData → Type 0
IsSampleShape d =
    (length d.values ≡ length d.time)
    × (length d.clock ≡ length d.time)
    × (length d.replica ≡ length d.time)

abbrev pub IsCounterShape : CounterData → Type 0
IsCounterShape d =
    (length d.replica ≡ length d.time)
    × (length d.clock ≡ length d.time)
    × (length d.value ≡ length d.time)

abbrev pub IsSketchShape : SketchData → Type 0
IsSketchShape d =
    (length d.values ≡ length d.time)
    × (length d.clock ≡ length d.time)
    × (length d.replica ≡ length d.time)

sample_columns_shape :
    (raw : List ℕ) (n : ℕ)
    → let c = (decode_sample_raw raw n).0 in
      (length c.time ≡ n) × (length c.values ≡ n) × (length c.clock ≡ n) × (length c.replica ≡ n)
unfolding decode_sample_raw sample_columns
sample_columns_shape raw n =
    (length-delta n (ready raw), length-float_xor n _, length-delta n _, length-delta n _)

counter_columns_shape :
    (raw : List ℕ) (n : ℕ)
    → let c = (decode_counter_raw raw n).0 in
      (length c.time ≡ n) × (length c.replica ≡ n) × (length c.clock ≡ n) × (length c.value ≡ n)
unfolding decode_counter_raw counter_columns
counter_columns_shape raw n =
    (length-delta n (ready raw), length-delta n _, length-delta n _, length-delta n _)

decode_samples-IsSampleShape :
    (raw : List ℕ) (n : ℕ) (d : SampleData)
    → IsSampleShape d
    → IsSampleShape (decode_samples raw n d).0
unfolding decode_samples
decode_samples-IsSampleShape raw n d h =
    let c = (decode_sample_raw raw n).0 in
    ground (
      arith,
      h,
      sample_columns_shape raw n,
      length-append d.time c.time,
      length-append d.values c.values,
      length-append d.clock c.clock,
      length-append d.replica c.replica,
    )

decode_sketches-IsSketchShape :
    (raw : List ℕ) (n : ℕ) (d : SketchData)
    → IsSketchShape d
    → IsSketchShape (decode_sketches raw n d).0
unfolding decode_sketches
decode_sketches-IsSketchShape raw n d h =
    let c = (decode_sample_raw raw n).0 in
    ground (
      arith,
      h,
      sample_columns_shape raw n,
      length-append d.time c.time,
      length-append d.values c.values,
      length-append d.clock c.clock,
      length-append d.replica c.replica,
    )

decode_counters-IsCounterShape :
    (raw : List ℕ) (n : ℕ) (d : CounterData)
    → IsCounterShape d
    → IsCounterShape (decode_counters raw n d).0
unfolding decode_counters
decode_counters-IsCounterShape raw n d h =
    let c = (decode_counter_raw raw n).0 in
    ground (
      arith,
      h,
      counter_columns_shape raw n,
      length-append d.time c.time,
      length-append d.replica c.replica,
      length-append d.clock c.clock,
      length-append d.value c.value,
    )

scan_sketch_buckets_loop-IsSketchShape :
    (n previous : ℕ) (r : Reader) (d : SketchData)
    → IsSketchShape d
    → IsSketchShape (scan_sketch_buckets_loop keep_bucket n previous r d).0
unfolding scan_sketch_buckets_loop
scan_sketch_buckets_loop-IsSketchShape zero previous r d h = h
scan_sketch_buckets_loop-IsSketchShape (suc n) previous r d h =
    let ((time, block), r') = sketch_entry previous r in
    ground (arith, h, scan_sketch_buckets_loop-IsSketchShape n time r' (keep_bucket time block d).0)

buckets_keep_samples :
    (raw : List ℕ) (n : ℕ) (d : SampleData)
    → IsSampleShape d
    → IsSampleShape (decode_sample_buckets raw n d).0
unfolding decode_sample_buckets
buckets_keep_samples raw n d h = h

buckets_keep_counters :
    (raw : List ℕ) (n : ℕ) (d : CounterData)
    → IsCounterShape d
    → IsCounterShape (decode_counter_buckets raw n d).0
unfolding decode_counter_buckets
buckets_keep_counters raw n d h = h

buckets_keep_sketches :
    (raw : List ℕ) (n : ℕ) (d : SketchData)
    → IsSketchShape d
    → IsSketchShape (decode_sketch_buckets raw n d).0
unfolding decode_sketch_buckets scan_sketch_buckets
buckets_keep_sketches raw n d h = scan_sketch_buckets_loop-IsSketchShape n 0 (ready raw) d h

abbrev pub IsShape : Pending → Type 0
IsShape p = IsSampleShape p.samples × (IsCounterShape p.counters × IsSketchShape p.sketches)

apply_raw-IsShape :
    (seg : Segment) (out : Pending) (raw : List ℕ) → IsShape out → IsShape (apply_raw seg out raw).0
unfolding apply_raw
apply_raw-IsShape seg out raw (a, (b, c)) = ground (
  arith,
  a,
  b,
  c,
  decode_samples-IsSampleShape raw seg.count out.samples a,
  decode_counters-IsCounterShape raw seg.count out.counters b,
  decode_sketches-IsSketchShape raw seg.count out.sketches c,
  buckets_keep_samples raw seg.count out.samples a,
  buckets_keep_counters raw seg.count out.counters b,
  buckets_keep_sketches raw seg.count out.sketches c,
)

pub valid_pending-IsShape : (p : Pending) → IsShape p → valid_pending p ≡ none
unfolding valid_pending
valid_pending-IsShape p (a, (b, c)) = ground (arith, a, b, c)

module _ (s2 : Compressor) where
  abbrev Decoded : Pending × Option Error → Bool → Type 0
  Decoded st more = IsShape st.0

  empty-IsShape : IsShape no_pending
  empty-IsShape = ((refl, refl, refl), ((refl, refl, refl), (refl, refl, refl)))

  pending_yield-Keeps : Keeps Decoded (pending_yield s2)
  unfolding pending_yield
  pending_yield-Keeps seg (out, e) h =
      ground (arith, h, empty-IsShape, apply_raw-IsShape seg out (decode_into s2 seg).0 h)

  ended : (st : Pending × Option Error) → Ends Decoded st → IsShape st.0
  ended st (inl h) = h
  ended st (inr h) = h

  -- Whatever the bytes of a series are, a state that `pending` decodes without an error passes
  -- `valid`: its columns have one length for each kind.
  pub valid_pending-pending :
      (s : List ℕ) (p : Pending) → pending s2 s ≡ ok p → valid_pending p ≡ none
  unfolding pending
  valid_pending-pending s p h =
      let last = (scan (pending_yield s2) s (no_pending, none)).0 in
      valid_pending-IsShape p (
        ground (
          arith,
          h,
          ended last (
              scan-Ends Decoded (pending_yield s2) pending_yield-Keeps s (no_pending, none)
                empty-IsShape),
        ))
