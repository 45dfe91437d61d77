-- ===== src/Sketches/Quantiles.antt =====
-- What `Quantile` of sketches.go answers.
use trend.Prelude.{◌≡◌, arith, false, Option, none, some}
use trend.Float.{Float64, is_nan, less, float_min, float_max}
use trend.Codec.Reader.{Error, Reader}
use trend.Sketches.Handle.{Sketch, nan}

-- A sketch that has observations and whose smallest and largest are in order.
pub record IsOrdered (h : Sketch) : Type 0 where
  pub min_number : is_nan h.min ≡ false
  pub max_number : is_nan h.max ≡ false
  pub in_order : less h.max h.min ≡ false

-- `x` is not outside of what was observed.
pub record IsInside (h : Sketch) (x : Float64) : Type 0 where
  pub not_below : less x h.min ≡ false
  pub not_above : less h.max x ≡ false

pub less_self : (a : Float64) → less a a ≡ false
unfolding less
less_self a = ground arith

-- What is made of the value that a payload gives.
abbrev answer : Sketch → Option Float64 × Option Error → Option Float64
answer h a = elim a.0 [
  | none ↦ none
  | some v ↦ elim a.1 [ some _ ↦ some nan | none ↦ some (float_min (float_max v h.min) h.max) ]
]
