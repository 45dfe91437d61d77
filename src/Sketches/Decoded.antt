-- ===== src/Sketches/Decoded.antt =====
-- The invariant of a sketch and the bytes of one: decodeSketch and mergeBytes in sketch_state.go.
use trend.Prelude.{ℕ, zero, suc, ◌+◌, ◌≤◌, ◌≡◌, ◌≢◌, refl, ap, arith, Bool, true, false}
use trend.Prelude.{Option, none, some, List, [], ◌∷◌, if◌then◌else◌}
use trend.Float.{Float64, Arith}
use trend.Maps.{insert, keys}
use trend.Maps.Laws.{IsDistinct, insert-IsDistinct}
use trend.Codec.Reader.{Error, Reader, u64, byte, uvarint, count, done}
use trend.Codec.Series.{Result, ok, err}
use trend.Sketches.Value.{
  sketch_max_bins, bins, SketchValue, no_value, Math, approximate, add_approx, add_exact,
  merge_value,
}
use trend.Sketches.Encoded.{
  varint, sketch_bins_loop, sketch_bins_each, keep_bin, sketch_bins, decode_sketch_header,
  check_sketch, decode_payload, decode_sketch, merge_bytes,
}
use trend.Sketches.Bounds.{held, IsMaps, IsSketch}
use trend.Sketches.Invariant.{
  IsOneForm, approximate-IsSketch, add_approx-IsSketch, add_exact-IsSketch, merge_value-IsSketch,
}

bins_loop-IsDistinct :
    (n : ℕ) (first : Bool) (current : ℕ) (r : Reader) (m : List (ℕ × ℕ))
    → IsDistinct (keys m)
    → IsDistinct (keys (sketch_bins_loop keep_bin n first current r m).0)
unfolding sketch_bins_loop
bins_loop-IsDistinct zero first current r m h = h
bins_loop-IsDistinct (suc n) first current r m h =
    let (key, r) = if first then varint r else (let (d, r) = uvarint r in (u64 (current + d), r)) in
    let (amount, r) = uvarint r in
    let step : IsDistinct (keys (insert key amount m)) = insert-IsDistinct key amount m h in
    let rest = bins_loop-IsDistinct n false key r (insert key amount m) step in
    ground (arith, h, rest)

sketch_bins-IsDistinct : (r : Reader) → IsDistinct (keys (sketch_bins r).0)
unfolding sketch_bins sketch_bins_each
sketch_bins-IsDistinct r =
    let (n, r') = count r in
    let rest = bins_loop-IsDistinct n true 0 r' [] tt in ground (arith, rest)

record IsPayload (v w : SketchValue) : Type 0 where
  maps : IsMaps w
  one_form : IsOneForm w

decode_payload-IsPayload :
    (kind : ℕ) (v w : SketchValue) (r r' : Reader)
    → v.zero ≡ 0
    → v.negative ≡ []
    → v.positive ≡ []
    → v.exact ≡ none
    → decode_payload kind v r ≡ ok (w, r')
    → IsPayload v w
unfolding decode_payload
decode_payload-IsPayload kind v w r r' z n p x e =
    let (zeros, r1) = uvarint r in
    let (negative, r2) = sketch_bins r1 in
    let negative_distinct = sketch_bins-IsDistinct r1 in
    let positive_distinct = sketch_bins-IsDistinct r2 in
    record {
      maps = record {
        negative_keys = ground (arith, n, e, negative_distinct);
        positive_keys = ground (arith, p, e, positive_distinct);
      };
      one_form = record {
        no_zero = λ h. ground (arith, z, x, e, h);
        no_negative = λ h. ground (arith, n, x, e, h);
        no_positive = λ h. ground (arith, p, x, e, h);
      };
    }

check_sketch_lem :
    (v w : SketchValue)
    → check_sketch v ≡ ok w
    → (v ≡ w) × (bins v ≤ sketch_max_bins) × (v.count ≡ held v)
unfolding check_sketch held
check_sketch_lem v w h = ground (arith, h)

-- The first byte is the kind.
header_kind :
    (b : ℕ) (bs : List ℕ)
    → (decode_sketch_header (b ∷ bs)).1 ≡ none
    → ((decode_sketch_header (b ∷ bs)).0.kind ≡ b)
      × ((decode_sketch_header (b ∷ bs)).0.value.zero ≡ 0)
      × ((decode_sketch_header (b ∷ bs)).0.value.negative ≡ [])
      × ((decode_sketch_header (b ∷ bs)).0.value.positive ≡ [])
      × ((decode_sketch_header (b ∷ bs)).0.value.exact ≡ none)
unfolding decode_sketch_header byte
header_kind b bs h = ground (arith, h)

checked_lem :
    (v w : SketchValue) (refused : Option Error)
    → IsMaps v
    → IsOneForm v
    → ◌≡◌ {A = Result SketchValue} (elim refused [ some e ↦ err e | none ↦ check_sketch v ]) (ok w)
    → IsSketch w × IsOneForm w
checked_lem v w (some e) m f h = absurd (ground (arith, h))
checked_lem v w none m f h =
    let (same, bounded, counted) = check_sketch_lem v w h in
    rw (← same) (record { maps = m; counted = counted; bounded = bounded }, f)

decoded_lem :
    (v w : SketchValue) (d : Result (SketchValue × Reader))
    → ((v' : SketchValue) (r : Reader) → d ≡ ok (v', r) → IsPayload v v')
    → ◌≡◌ {A = Result SketchValue}
        (elim d [
          | err e ↦ err e
          | ok (v', r) ↦ elim (done r) [ some e ↦ err e | none ↦ check_sketch v' ]
        ])
        (ok w)
    → IsSketch w × IsOneForm w
decoded_lem v w (err e) f h = absurd (ground (arith, h))
decoded_lem v w (ok (v', r)) f h =
    let d = f v' r refl in checked_lem v' w (done r) d.maps d.one_form h

decode_sketch_lem :
    (b : ℕ) (bs : List ℕ) (w : SketchValue)
    → b ≢ 0
    → decode_sketch (b ∷ bs) ≡ ok w
    → IsSketch w × IsOneForm w
unfolding decode_sketch
decode_sketch_lem b bs w p h =
    let header = (decode_sketch_header (b ∷ bs)).0 in
    let d = decode_payload header.kind header.value header.rest in
    let after : (decode_sketch_header (b ∷ bs)).1 ≡ none
        → ◌≡◌ {A = Result SketchValue}
            (elim d [
              | err e ↦ err e
              | ok (v', r) ↦ elim (done r) [ some e ↦ err e | none ↦ check_sketch v' ]
            ])
            (ok w)
        → IsSketch w × IsOneForm w =
      λ k.
        let (_, z, n, q, x) = header_kind b bs k in
        decoded_lem header.value w d (λ v' r e.
          decode_payload-IsPayload header.kind header.value v' header.rest r z n q x e) in
    ground (arith, p, h, header_kind b bs, after)

-- A sketch without bytes is one of no observations.
decode_empty : decode_sketch [] ≡ ok no_value
unfolding decode_sketch decode_sketch_header
decode_empty = refl

-- The kind of a sketch, of which there is none without bytes.
abbrev pub kind_byte : List ℕ → Option ℕ
kind_byte [] = none
kind_byte (b ∷ bs) = some b

module _ (lib : Math) (fp : Arith) where
  merged_lem :
      (v : SketchValue) (d : Result SketchValue)
      → IsSketch v
      → ((w : SketchValue) → d ≡ ok w → IsSketch w × IsOneForm w)
      → IsSketch
          (elim d as (λ d. SketchValue × Option Error) [
            | err e ↦ (v, some e)
            | ok other ↦ (merge_value lib fp v other, none)
          ]).0
  merged_lem v (err e) h f = h
  merged_lem v (ok w) h f = let (k, l) = f w refl in merge_value-IsSketch lib fp v w h k l

  merge_bytes-IsSketch :
      (v : SketchValue) (bs : List ℕ)
      → IsSketch v
      → kind_byte bs ≢ some 0
      → IsSketch (merge_bytes lib fp v bs).0
  unfolding merge_bytes merge_value decode_sketch decode_sketch_header
  merge_bytes-IsSketch v [] h p = h
  merge_bytes-IsSketch v (b ∷ bs) h p =
      let kind : b ≢ 0 = λ e. p (ap some e) in
      merged_lem v (decode_sketch (b ∷ bs)) h (λ w. decode_sketch_lem b bs w kind)

  -- A sketch with one entry to a key, a count of what it holds, and no more than 1024 bins stays like
  -- that: behind an observation that is added exactly or in bins, when its exact values become bins,
  -- and when the bytes of another sketch are merged in, whether they decode or not, unless the first
  -- of them is 0.
  pub IsSketch-kept :
      (v : SketchValue) (x : Float64) (bs : List ℕ)
      → IsSketch v
      → kind_byte bs ≢ some 0
      → IsSketch (add_exact lib fp v x)
        × IsSketch (add_approx lib fp v x)
        × IsSketch (approximate lib v)
        × IsSketch (merge_bytes lib fp v bs).0
  IsSketch-kept v x bs h k = (
    add_exact-IsSketch lib fp v x h,
    add_approx-IsSketch lib fp v x h,
    approximate-IsSketch lib v h,
    merge_bytes-IsSketch v bs h k,
  )
