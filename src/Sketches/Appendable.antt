-- ===== src/Sketches/Appendable.antt =====
-- The order of the columns and buckets that `Merge` of sketchData leaves.
use trend.Prelude.{ℕ, ◌≡◌, refl, ap, ◌∙◌, arith, true, ◌&&◌}
use trend.Prelude.{List, [], ◌∷◌, ◌++◌, map, foldl, foldl-append, length, length-append, ltb}
use trend.Float.{Float64, Arith}
use trend.Data.{SketchData, SketchBucket}
use trend.Times.{strictly_increasing, nondecreasing}
use trend.Times.Laws.{strictly_increasing_lem, blocks_ordered, none_above}
use trend.Maps.{get_or, keys, insert, sorted_times}
use trend.Maps.Laws.{IsDistinct, insert-IsDistinct, sorted_times-IsIncreasing}
use trend.Sketches.{add, sketch_buckets_increasing, appendable}
use trend.Sketches.Value.{SketchValue, no_value, Math}
use trend.Sketches.Encoded.{encode_approx, merge_bytes}
use trend.Sketches.Merge.{
  SketchOp, rows, keep_larger, add_op, ops_of, add_ops, merge_bucket, encoded_buckets,
  merge_sketch_buckets, merge,
}

buckets_increasing-map :
    (bs : List SketchBucket)
    → sketch_buckets_increasing bs ≡ strictly_increasing (map (λ b. b.time) bs)
unfolding sketch_buckets_increasing strictly_increasing
buckets_increasing-map [] = refl
buckets_increasing-map (x ∷ []) = refl
buckets_increasing-map (x ∷ (y ∷ ys)) =
    ap (λ c. ltb x.time y.time && c) (buckets_increasing-map (y ∷ ys))

module _ (lib : Math) (fp : Arith) where
  merge_buckets-IsDistinct :
      (bs : List SketchBucket) (m : List (ℕ × SketchValue))
      → IsDistinct (keys m)
      → IsDistinct (keys (foldl (merge_bucket lib fp) m bs))
  unfolding merge_bucket
  merge_buckets-IsDistinct [] m h = h
  merge_buckets-IsDistinct (x ∷ bs) m h =
      let v = (merge_bytes lib fp (get_or m x.time no_value) x.encoded).0 in
      merge_buckets-IsDistinct bs (insert x.time v m) (insert-IsDistinct x.time v m h)

  abbrev bucket_at : List (ℕ × SketchValue) → ℕ → SketchBucket
  bucket_at m t = record { time = t; encoded = encode_approx lib (get_or m t no_value) }

  bucket_times :
      (m : List (ℕ × SketchValue)) (ts : List ℕ) → map (λ b. b.time) (map (bucket_at m) ts) ≡ ts
  bucket_times m [] = refl
  bucket_times m (t ∷ ts) = ap (λ xs. t ∷ xs) (bucket_times m ts)

  pub encoded_buckets-map :
      (m : List (ℕ × SketchValue)) → encoded_buckets lib fp m ≡ map (bucket_at m) (sorted_times m)
  unfolding encoded_buckets
  encoded_buckets-map m = foldl-append (bucket_at m) (sorted_times m) []

  merge_sketch_buckets_ordered :
      (a b : List SketchBucket) → sketch_buckets_increasing (merge_sketch_buckets lib fp a b) ≡ true
  unfolding merge_sketch_buckets
  merge_sketch_buckets_ordered a b =
      let m : List (ℕ × SketchValue) =
        foldl (merge_bucket lib fp) (foldl (merge_bucket lib fp) [] a) b in
      let distinct =
        merge_buckets-IsDistinct b (foldl (merge_bucket lib fp) [] a)
          (merge_buckets-IsDistinct a [] tt) in
      buckets_increasing-map (merge_sketch_buckets lib fp a b)
      ∙ ap (λ bs. strictly_increasing (map (λ (b : SketchBucket). b.time) bs))
          (encoded_buckets-map m)
      ∙ ap strictly_increasing (bucket_times m (sorted_times m))
      ∙ strictly_increasing_lem (sorted_times m) (sorted_times-IsIncreasing m distinct)

ops_of-IsDistinct :
    (rs : List (ℕ × (SketchOp × ℕ))) (m : List (ℕ × List (SketchOp × ℕ)))
    → IsDistinct (keys m)
    → IsDistinct (keys (foldl add_op m rs))
unfolding add_op
ops_of-IsDistinct [] m h = h
ops_of-IsDistinct ((t, (op, bits)) ∷ rs) m h =
    ops_of-IsDistinct rs (add_op m (t, (op, bits)))
      (insert-IsDistinct t (keep_larger op bits (get_or m t [])) m h)

push : ℕ → SketchData → SketchOp × ℕ → SketchData
push t d x = add d t (record { bits = x.1 }) x.0.clock x.0.replica

push-time : (t : ℕ) (d : SketchData) (x : SketchOp × ℕ) → (push t d x).time ≡ d.time ++ (t ∷ [])
unfolding push add
push-time t d x = refl

-- Columns of one length.
abbrev pub IsRect : SketchData → Type 0
IsRect d =
    (length d.values ≡ length d.time)
    × (length d.clock ≡ length d.time)
    × (length d.replica ≡ length d.time)

push-IsRect : (t : ℕ) (d : SketchData) (x : SketchOp × ℕ) → IsRect d → IsRect (push t d x)
unfolding push add
push-IsRect t d x (a, b, c) =
    let n = length-append d.time (t ∷ []) in
    let v : Float64 = record { bits = x.1 } in
    (
      omega (arith, a, n, length-append d.values (v ∷ [])),
      omega (arith, b, n, length-append d.clock (x.0.clock ∷ [])),
      omega (arith, c, n, length-append d.replica (x.0.replica ∷ [])),
    )

pushes-IsRect :
    (t : ℕ) (xs : List (SketchOp × ℕ)) (d : SketchData) → IsRect d → IsRect (foldl (push t) d xs)
pushes-IsRect t [] d h = h
pushes-IsRect t (x ∷ xs) d h = pushes-IsRect t xs (push t d x) (push-IsRect t d x h)

blocks-IsRect :
    (items : ℕ → List (SketchOp × ℕ)) (ts : List ℕ) (d : SketchData)
    → IsRect d
    → IsRect (foldl (λ e t. foldl (push t) e (items t)) d ts)
blocks-IsRect items [] d h = h
blocks-IsRect items (t ∷ ts) d h =
    blocks-IsRect items ts (foldl (push t) d (items t)) (pushes-IsRect t (items t) d h)

module _ (lib : Math) (fp : Arith) (order : ℕ → List (SketchOp × ℕ) → List (SketchOp × ℕ)) where
  time_ordered : (d delta : SketchData) → nondecreasing (merge lib fp order d delta).time ≡ true
  unfolding merge add_ops push ops_of nondecreasing
  time_ordered d delta =
      let ops = ops_of d delta in
      let cleared : SketchData = record d { time = []; values = []; clock = []; replica = [] } in
      blocks_ordered (λ (d : SketchData). d.time) push push-time (λ t. order t (get_or ops t []))
        (sorted_times ops) cleared
        (sorted_times-IsIncreasing ops (
          ops_of-IsDistinct (rows delta) (foldl add_op [] (rows d))
            (ops_of-IsDistinct (rows d) [] tt)))
        refl (none_above (sorted_times ops))

  merge-buckets :
      (d delta : SketchData)
      → (merge lib fp order d delta).buckets ≡ merge_sketch_buckets lib fp d.buckets delta.buckets
  unfolding merge
  merge-buckets d delta = refl

  pub appendable-merge : (d delta : SketchData) → appendable (merge lib fp order d delta) ≡ true
  unfolding appendable
  appendable-merge d delta =
      let buckets : sketch_buckets_increasing (merge lib fp order d delta).buckets ≡ true =
        rw (merge-buckets d delta) (merge_sketch_buckets_ordered lib fp d.buckets delta.buckets) in
      ground (arith, time_ordered d delta, buckets)

  pub merge-IsRect : (d delta : SketchData) → IsRect (merge lib fp order d delta)
  unfolding merge add_ops push ops_of
  merge-IsRect d delta =
      let ops = ops_of d delta in
      let cleared : SketchData = record d { time = []; values = []; clock = []; replica = [] } in
      blocks-IsRect (λ t. order t (get_or ops t [])) (sorted_times ops) cleared (refl, refl, refl)
