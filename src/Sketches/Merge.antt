-- ===== src/Sketches/Merge.antt =====
-- `Merge` and `Compact` of sketchData in sketch_state.go, and `mergeSketchBuckets`.
use trend.Codec.Reader.{is_make_panic}
use trend.Codec.Series.{ok, err}
use trend.Prelude.{ℕ, Bool, false, ◌&&◌, ◌||◌, Option, none, some}
use trend.Prelude.{List, [], ◌∷◌, ◌++◌, foldl, length, ltb, leb, ◌==◌, if◌then◌else◌}
use trend.Float.{Float64, Arith}
use trend.Data.{SketchData, SketchBucket}
use trend.Times.{bucket_of}
use trend.Maps.{insert, get_or, sorted_times}
use trend.Sketches.{add}
use trend.Sketches.Value.{SketchValue, no_value, Math, add_approx}
use trend.Sketches.Encoded.{decode_sketch, encode_approx, merge_bytes}

pub record SketchOp : Type 0 where
  pub replica : ℕ
  pub clock : ℕ

abbrev pub same_op : SketchOp → SketchOp → Bool
same_op a b = a.replica == b.replica && a.clock == b.clock

-- A Go map from operations to float bits.
unfoldable pub find_op : SketchOp → List (SketchOp × ℕ) → Option ℕ
find_op op [] = none
find_op op ((o, bits) ∷ m) = if same_op o op then some bits else find_op op m

unfoldable pub put_op : SketchOp → ℕ → List (SketchOp × ℕ) → List (SketchOp × ℕ)
put_op op bits [] = (op, bits) ∷ []
put_op op bits ((o, old) ∷ m) = if same_op o op then (o, bits) ∷ m else (o, old) ∷ put_op op bits m

-- An observation: the operation and the bits of its value.
unfoldable pub rows_of : List ℕ → List Float64 → List ℕ → List ℕ → List (ℕ × (SketchOp × ℕ))
rows_of (t ∷ ts) (v ∷ vs) (c ∷ cs) (r ∷ rs) =
    (t, (record { replica = r; clock = c }, v.bits)) ∷ rows_of ts vs cs rs
rows_of _ _ _ _ = []

unfoldable pub rows : SketchData → List (ℕ × (SketchOp × ℕ))
unfolding rows_of
rows d = rows_of d.time d.values d.clock d.replica

-- The larger bits of an operation stay.
unfoldable pub keep_larger : SketchOp → ℕ → List (SketchOp × ℕ) → List (SketchOp × ℕ)
keep_larger op bits m = elim (find_op op m) [
  | none ↦ put_op op bits m
  | some previous ↦ if ltb previous bits then put_op op bits m else m
]

-- The closure `add` of `Merge`.
unfoldable pub add_op :
    List (ℕ × List (SketchOp × ℕ)) → ℕ × (SketchOp × ℕ) → List (ℕ × List (SketchOp × ℕ))
unfolding keep_larger
add_op ops (t, (op, bits)) = insert t (keep_larger op bits (get_or ops t [])) ops

unfoldable pub ops_of : SketchData → SketchData → List (ℕ × List (SketchOp × ℕ))
unfolding add_op
ops_of d delta = foldl add_op (foldl add_op [] (rows d)) (rows delta)

unfoldable pub add_ops : ℕ → SketchData → List (SketchOp × ℕ) → SketchData
add_ops t d ops =
    foldl (λ e (x : SketchOp × ℕ). add e t (record { bits = x.1 }) x.0.clock x.0.replica) d ops

-- Whether the bytes of one of the buckets make `decodeSketch` panic.
unfoldable pub panics : List SketchBucket → Bool
panics [] = false
panics (b ∷ bs) =
    elim (decode_sketch b.encoded) [ ok v ↦ false | err e ↦ is_make_panic e ] || panics bs

module _ (lib : Math) (fp : Arith) where
  -- The closure `merge` of `mergeSketchBuckets`. An error of `mergeBytes` is dropped.
  unfoldable pub merge_bucket : List (ℕ × SketchValue) → SketchBucket → List (ℕ × SketchValue)
  merge_bucket m x = insert x.time (merge_bytes lib fp (get_or m x.time no_value) x.encoded).0 m

  -- The buckets of a map in the order of their times.
  unfoldable pub encoded_buckets : List (ℕ × SketchValue) → List SketchBucket
  encoded_buckets m =
      foldl
        (λ out t.
          out ++ (record { time = t; encoded = encode_approx lib (get_or m t no_value) } ∷ []))
        [] (sorted_times m)

  unfoldable pub merge_sketch_buckets : List SketchBucket → List SketchBucket → List SketchBucket
  merge_sketch_buckets a b = encoded_buckets (foldl merge_bucket (foldl merge_bucket [] a) b)

  -- `order` is the order in which `range` visits the operations of a time, which Go leaves open.
  unfoldable pub merge :
      (ℕ → List (SketchOp × ℕ) → List (SketchOp × ℕ)) → SketchData → SketchData → SketchData
  merge order d delta =
      let ops = ops_of d delta in
      let cleared : SketchData = record d { time = []; values = []; clock = []; replica = [] } in
      let merged =
        foldl (λ e t. add_ops t e (order t (get_or ops t []))) cleared (sorted_times ops) in
      record merged { buckets = merge_sketch_buckets d.buckets delta.buckets }

  -- A round of `Compact` on the columns kept so far and the buckets.
  unfoldable pub compact_row :
      ℕ
      → ℕ
      → SketchData × List (ℕ × SketchValue)
      → ℕ × (SketchOp × ℕ)
      → SketchData × List (ℕ × SketchValue)
  compact_row cutoff span (kept, buckets) (t, (op, bits)) =
      if leb cutoff t
      then (add kept t (record { bits = bits }) op.clock op.replica, buckets)
      else (let time = bucket_of t span in
          let v = add_approx lib fp (get_or buckets time no_value) (record { bits = bits }) in
          (kept, insert time v buckets))

  unfoldable pub compact : SketchData → ℕ → ℕ → SketchData
  compact d cutoff span =
      if length d.time == 0
      then d
      else (let none_kept : SketchData = record {
        time = [];
        values = [];
        clock = [];
        replica = [];
        buckets = [];
      } in
          let old =
            foldl
              (λ m (b : SketchBucket). insert b.time (merge_bytes lib fp no_value b.encoded).0 m) []
              d.buckets in
          let (kept, buckets) = foldl (compact_row cutoff span) (none_kept, old) (rows d) in
          record kept { buckets = encoded_buckets buckets })
