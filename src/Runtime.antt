-- ===== src/Runtime.antt =====
-- What the program takes from Go and from other packages: the compressor s2, float arithmetic, the
-- package math, and the orders in which `range` visits a map of operations, which Go leaves open.
use trend.Prelude.{ℕ, List}
use trend.Float.{Arith}
use trend.Codec.Segment.{Compressor}
use trend.Counters.{CounterOp}
use trend.Sketches.Value.{Math}
use trend.Sketches.Merge.{SketchOp}

pub record Runtime : Type 0 where
  pub s2 : Compressor
  pub fp : Arith
  pub lib : Math
  pub counter_order : ℕ → List CounterOp → List CounterOp
  pub sketch_order : ℕ → List (SketchOp × ℕ) → List (SketchOp × ℕ)
