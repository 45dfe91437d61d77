-- ===== src/Codec/Rows.antt =====
-- The chunks that the column loops of block.go cut.
pub mod Samples
pub mod Counters
pub mod Sketches
use trend.Prelude.{ℕ, ◌^◌, ◌≤◌, ◌<◌, ◌≡◌, refl, arith, min, true}
use trend.Prelude.{
  List, [], ◌∷◌, length, All, All-take, All-drop, take, drop, length-take, length-drop,
}
use trend.Float.{Float64}
use trend.Data.{IsU64}
use trend.Codec.Segment.{segment_size, is_kind}
use trend.Codec.Segments.{last_or}
use trend.Codec.Scan.{IsBlock}
use trend.Codec.Bodies.{IsSampleRows, IsCounterRows}
use trend.Codec.Writes.{IsAscending, All-last_or}

-- The size of the next chunk.
abbrev pub chunk : List ℕ → ℕ
chunk time = min (length time) segment_size

module _ (time : List ℕ) (values : List Float64) (clock replica : List ℕ)
    (v : IsSampleRows (length time) time values clock replica) where
  pub IsSampleRows-take :
      (n : ℕ)
      → n ≤ length time
      → IsSampleRows n (take n time) (take n values) (take n clock) (take n replica)
  IsSampleRows-take n h = record {
    time_length = omega (arith, length-take n time);
    values_length = omega (arith, length-take n values, v.values_length);
    clock_length = omega (arith, length-take n clock, v.clock_length);
    replica_length = omega (arith, length-take n replica, v.replica_length);
    time_fits = All-take _ n time v.time_fits;
    values_fit = All-take _ n values v.values_fit;
    clock_fits = All-take _ n clock v.clock_fits;
    replica_fits = All-take _ n replica v.replica_fits;
  }

  pub IsSampleRows-drop :
      (n : ℕ)
      → IsSampleRows
          (length (drop n time))
          (drop n time)
          (drop n values)
          (drop n clock)
          (drop n replica)
  IsSampleRows-drop n = record {
    time_length = refl;
    values_length = omega (arith, length-drop n time, length-drop n values, v.values_length);
    clock_length = omega (arith, length-drop n time, length-drop n clock, v.clock_length);
    replica_length = omega (arith, length-drop n time, length-drop n replica, v.replica_length);
    time_fits = All-drop _ n time v.time_fits;
    values_fit = All-drop _ n values v.values_fit;
    clock_fits = All-drop _ n clock v.clock_fits;
    replica_fits = All-drop _ n replica v.replica_fits;
  }

module _ (time replica clock value : List ℕ)
    (v : IsCounterRows (length time) time replica clock value) where
  pub IsCounterRows-take :
      (n : ℕ)
      → n ≤ length time
      → IsCounterRows n (take n time) (take n replica) (take n clock) (take n value)
  IsCounterRows-take n h = record {
    time_length = omega (arith, length-take n time);
    replica_length = omega (arith, length-take n replica, v.replica_length);
    clock_length = omega (arith, length-take n clock, v.clock_length);
    value_length = omega (arith, length-take n value, v.value_length);
    time_fits = All-take _ n time v.time_fits;
    replica_fits = All-take _ n replica v.replica_fits;
    clock_fits = All-take _ n clock v.clock_fits;
    value_fits = All-take _ n value v.value_fits;
  }

  pub IsCounterRows-drop :
      (n : ℕ)
      → IsCounterRows
          (length (drop n time))
          (drop n time)
          (drop n replica)
          (drop n clock)
          (drop n value)
  IsCounterRows-drop n = record {
    time_length = refl;
    replica_length = omega (arith, length-drop n time, length-drop n replica, v.replica_length);
    clock_length = omega (arith, length-drop n time, length-drop n clock, v.clock_length);
    value_length = omega (arith, length-drop n time, length-drop n value, v.value_length);
    time_fits = All-drop _ n time v.time_fits;
    replica_fits = All-drop _ n replica v.replica_fits;
    clock_fits = All-drop _ n clock v.clock_fits;
    value_fits = All-drop _ n value v.value_fits;
  }

-- The first `n` entries of an ascending column, as `appendSegment` is given them.
pub chunk-IsBlock :
    (kind n t : ℕ) (ts raw : List ℕ)
    → is_kind kind ≡ true
    → 0 < n
    → n ≤ segment_size
    → All IsU64 (t ∷ ts)
    → IsAscending (t ∷ ts)
    → length raw < 2 ^ 32
    → IsBlock kind t (last_or t (take n (t ∷ ts))) n raw
chunk-IsBlock kind n t ts raw k p q u a r = record {
  known = k;
  in_order = All-last_or (λ y. t ≤ y) t _ (omega arith) (All-take _ n (t ∷ ts) (omega arith, a.0));
  to_fits = All-last_or IsU64 t _ u.0 (All-take IsU64 n (t ∷ ts) u);
  not_empty = p;
  small = q;
  raw_fits = r;
}

pub nil_of_length {ℓ} : {A : Type ℓ} (xs : List A) → length xs ≡ 0 → xs ≡ []
nil_of_length [] h = refl
nil_of_length (x ∷ xs) h = absurd (omega arith)
