-- ===== src/Sketches.antt =====
-- The columns of sketchData in sketch_state.go: what does not look into a sketch.
pub mod Value
pub mod Encoded
pub mod Merge
pub mod Appendable
pub mod Bins
pub mod Bounds
pub mod Invariant
pub mod Decoded
pub mod Bytes
pub mod Order
pub mod RoundTrip
pub mod Handle
pub mod Quantiles
use trend.Prelude.{ℕ, ◌+◌, Bool, true, false, ◌&&◌, List, [], ◌∷◌, ◌++◌, foldl, length, ltb}
use trend.Float.{Float64}
use trend.Data.{SketchData, SketchBucket}
use trend.Times.{nondecreasing, min_step}

unfoldable pub add : SketchData → ℕ → Float64 → ℕ → ℕ → SketchData
add d t value clock replica = record d {
  time = d.time ++ (t ∷ []);
  values = d.values ++ (value ∷ []);
  clock = d.clock ++ (clock ∷ []);
  replica = d.replica ++ (replica ∷ []);
}

unfoldable pub reset : SketchData → SketchData
reset d = record { time = []; values = []; clock = []; replica = []; buckets = [] }

unfoldable pub count : SketchData → ℕ
count d = length d.time + length d.buckets

unfoldable pub sketch_buckets_increasing : List SketchBucket → Bool
sketch_buckets_increasing [] = true
sketch_buckets_increasing (x ∷ xs) =
    elim xs [ [] ↦ true | y ∷ _ ↦ ltb x.time y.time ] && sketch_buckets_increasing xs

unfoldable pub appendable : SketchData → Bool
unfolding sketch_buckets_increasing
appendable d = nondecreasing d.time && sketch_buckets_increasing d.buckets

unfoldable pub min_time : SketchData → ℕ × Bool
min_time d =
    foldl (λ s (b : SketchBucket). min_step s b.time) (foldl min_step (0, false) d.time) d.buckets
