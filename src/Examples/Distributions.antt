-- ===== src/Examples/Distributions.antt =====
-- The theorems on sketches, at concrete sketches and with plain functions in place of package math.
use trend.Prelude.{ℕ, suc, ◌-◌, ◌/◌, ◌^◌, ◌<◌, ◌≡◌, refl, arith, Bool, true, false, none}
use trend.Prelude.{List, [], ◌∷◌}
use trend.Float.{Float64}
use trend.Maps.{lookup}
use trend.Codec.Series.{ok, err, append_to}
use trend.Sketches.Value.{SketchValue, no_value, Math, approximate, add_approx, add_exact}
use trend.Sketches.Encoded.{sum_bins, decode_sketch, encode_approx, merge_bytes}
use trend.Sketches.Bounds.{held, IsSketch, no_value-IsSketch}
use trend.Sketches.Decoded.{IsSketch-kept}
use trend.Sketches.RoundTrip.{IsEncodable, in_order, decode_sketch-encode_approx}
use trend.Sketches.Handle.{Sketch}
use trend.Reads.Sketches.{sketch_range, sketch_raw_range}
use trend.Reads.Invariant.{Ends}
use trend.Reads.RawServed.{IsServed, sketch_raw_range-keeps}
use trend.Reads.SketchLaws.{sketch_range-keeps}
use trend.Examples.{one, two, three, copy, mixed}
use trend.Examples.States.{plain}

-- The key of a value is its exponent.
abbrev pub plain_math : Math
plain_math = record {
  log = λ a. a;
  ceil = λ a. a;
  pow = λ a b. b;
  mul = λ a b. a;
  div = λ a b. a;
  to_int = λ a. a.bits / 2 ^ 52;
  of_int = λ k. record { bits = k };
}

-- A sketch of one zero.
abbrev zero_sketch : List ℕ
zero_sketch = 2 ∷ 1 ∷ 0 ∷ 0 ∷ 0 ∷ 1 ∷ 0 ∷ 0 ∷ []

IsSketch-kept_example :
    IsSketch (add_exact plain_math plain no_value two)
    × IsSketch (add_approx plain_math plain no_value two)
    × IsSketch (approximate plain_math no_value)
    × IsSketch (merge_bytes plain_math plain no_value zero_sketch).0
IsSketch-kept_example =
    IsSketch-kept plain_math plain no_value two zero_sketch no_value-IsSketch
      (λ e. absurd (ground (arith, e)))

-- Two bins that are not in order, a zero and a negative bin.
abbrev binned : SketchValue
binned = record {
  count = 6;
  sum = three;
  min = one;
  max = three;
  exact = none;
  zero = 1;
  negative = (2 ^ 64 - 3, 1) ∷ [];
  positive = (5, 1) ∷ (2, 3) ∷ [];
}

binned-IsEncodable : IsEncodable (approximate plain_math binned)
unfolding approximate held sum_bins
binned-IsEncodable = record {
  sketch = record {
    maps = record { negative_keys = (refl, tt); positive_keys = (refl, (refl, tt)) };
    counted = refl;
    bounded = omega arith;
  };
  in_bins = refl;
  zero_fits = omega arith;
  sum_fits = omega arith;
  min_fits = omega arith;
  max_fits = omega arith;
  negative_bins =
      (record { key_fits = omega arith; amount_fits = omega arith; occupied = omega arith }, tt);
  positive_bins = (
    record { key_fits = omega arith; amount_fits = omega arith; occupied = omega arith },
    (record { key_fits = omega arith; amount_fits = omega arith; occupied = omega arith }, tt),
  );
}

decode_sketch-encode_approx_example :
    let w = approximate plain_math binned in
    (decode_sketch (encode_approx plain_math binned) ≡ ok (in_order w))
    × (lookup 2 (in_order w).negative ≡ lookup 2 w.negative)
    × (lookup 2 (in_order w).positive ≡ lookup 2 w.positive)
decode_sketch-encode_approx_example =
    decode_sketch-encode_approx plain_math binned 2 binned-IsEncodable

-- Two observations, 1.0 and 3.0, held exactly.
abbrev pair : Sketch
pair = record {
  encoded = 0 ∷ 0 ∷ 0 ∷ 0 ∷ 0 ∷ 0 ∷ 0xf0 ∷ 0x3f ∷ 0 ∷ 0 ∷ 0 ∷ 0 ∷ 0 ∷ 0 ∷ 0x08 ∷ 0x40 ∷ [];
  count = 2;
  sum = two;
  min = one;
  max = three;
  kind = 1;
}

abbrev half : Float64
half = record { bits = 0x3fe0_0000_0000_0000 }

-- A reader that counts its calls and stops at the first.
abbrev stop_at_sketch : ℕ → Sketch → ℕ → ℕ × Bool
stop_at_sketch t h calls = (suc calls, false)

abbrev IsHalted : ℕ → Bool → Type 0
IsHalted calls true = calls ≡ 0
IsHalted calls false = calls ≡ 1

stop_at_sketch-IsHalted :
    (t : ℕ) (h : Sketch) (calls : ℕ)
    → IsHalted calls true
    → IsHalted (stop_at_sketch t h calls).0 (stop_at_sketch t h calls).1
stop_at_sketch-IsHalted t h calls k = omega (arith, k)

-- `mixed` as it is stored: an observation at 8 and a bucket at 3.
abbrev stored_sketches : List ℕ
stored_sketches = elim (append_to copy mixed []) [ ok bs ↦ bs | err e ↦ [] ]

sketch_range-keeps_example :
    Ends IsHalted
      (sketch_range copy plain_math plain (λ xs. xs) 5 9 0 stop_at_sketch stored_sketches 0).0
sketch_range-keeps_example =
    sketch_range-keeps IsHalted copy plain_math plain (λ xs. xs) 5 9 0 stop_at_sketch
      stop_at_sketch-IsHalted stored_sketches 0 refl

-- A reader that keeps the count of the sketch that it stops at.
abbrev keep_count : ℕ → Sketch → ℕ → ℕ × Bool
keep_count t h n = (h.count, false)

abbrev HasCount : ℕ → Bool → Type 0
HasCount n true = n ≡ 0
HasCount n false = 0 < n

keep_count-HasCount :
    (t : ℕ) (h : Sketch) (n : ℕ) (xs : List Float64)
    → IsServed (λ xs. xs) h xs
    → HasCount n true
    → HasCount (keep_count t h n).0 (keep_count t h n).1
keep_count-HasCount t h n xs j k = j.some_count

sketch_raw_range-keeps_example :
    Ends HasCount
      (sketch_raw_range copy plain_math plain (λ xs. xs) 5 9 0 keep_count stored_sketches 0).0
sketch_raw_range-keeps_example =
    sketch_raw_range-keeps HasCount copy plain_math plain (λ xs. xs) 5 9 0 keep_count (λ xs. refl)
      keep_count-HasCount stored_sketches 0 refl
