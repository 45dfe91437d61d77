-- ===== src/Sketches/Invariant.antt =====
-- The operations of sketchValue in sketch_state.go and its invariant.
use trend.Prelude.{ℕ, ◌+◌, ◌%◌, ◌^◌, ◌≤◌, ◌≡◌, refl, sym, ap, ◌∙◌, arith, true}
use trend.Prelude.{Option, none, some, List, [], ◌∷◌, length, length-append, ◌==◌, if◌then◌else◌}
use trend.Float.{Float64, Arith, float_min, float_max}
use trend.Sketches.Value.{
  sketch_max_bins, SketchValue, exact_values, is_exact, append_slice, bins, collapse, add_entries,
  add_stats, Math, bin_key, add_bin, add_bins, approximate, add_approx, add_exact, merge_value,
}
use trend.Sketches.Encoded.{sum_bins}
use trend.Sketches.Bins.{
  sum_bins-add_sum, sum_bins-add_entries, add_sum-IsDistinct, add_entries-IsDistinct,
}
use trend.Sketches.Bounds.{held, IsMaps, collapse_lem, IsSketch, collapse-IsSketch, add_stats_lem}

-- What a value keeps when its exact values become bins.
record IsApproximation (v w : SketchValue) : Type 0 where
  maps : IsMaps w
  same_held : held w ≡ held v
  same_count : w.count ≡ v.count
  no_exact : w.exact ≡ none
  same_bound : bins v ≤ sketch_max_bins → bins w ≤ sketch_max_bins

-- A value that is held exactly has no bins.
pub record IsOneForm (v : SketchValue) : Type 0 where
  pub no_zero : is_exact v ≡ true → v.zero ≡ 0
  pub no_negative : is_exact v ≡ true → v.negative ≡ []
  pub no_positive : is_exact v ≡ true → v.positive ≡ []

abbrev slice : Option (List Float64) → List Float64
slice o = elim o [ none ↦ [] | some xs ↦ xs ]

length-append_slice :
    (o : Option (List Float64)) (ys : List Float64)
    → length (slice (append_slice o ys)) ≡ length (slice o) + length ys
length-append_slice none [] = refl
length-append_slice none (y ∷ ys) = omega arith
length-append_slice (some xs) ys = length-append xs ys

-- Exact values behind exact values.
append_slice-IsSketch :
    (v w : SketchValue) (ys : List Float64)
    → IsSketch v
    → w.count ≡ (v.count + length ys) % 2 ^ 64
    → w.exact ≡ append_slice v.exact ys
    → w.zero ≡ v.zero
    → w.negative ≡ v.negative
    → w.positive ≡ v.positive
    → IsSketch w
unfolding held
append_slice-IsSketch v w ys h c e z n p =
    let more = length-append_slice v.exact ys in
    let same = ap (λ o. length (slice o)) e in
    record {
      maps = record {
        negative_keys = ground (arith, n, h.maps.negative_keys);
        positive_keys = ground (arith, p, h.maps.positive_keys);
      };
      counted = ground (arith, more, same, c, z, n, p, h.counted);
      bounded = ground (arith, n, p, h.bounded);
    }

module _ (lib : Math) where
  -- A value goes to one of the three parts.
  add_bin_lem :
      (v : SketchValue) (x : Float64) (n : ℕ)
      → IsMaps v
      → (held (add_bin lib v x n) ≡ (held v + n) % 2 ^ 64)
        × IsMaps (add_bin lib v x n)
        × ((add_bin lib v x n).count ≡ v.count)
        × ((add_bin lib v x n).exact ≡ v.exact)
  unfolding add_bin held
  add_bin_lem v x n h =
      let k = bin_key lib x in
      ground (
        arith,
        h,
        sum_bins-add_sum v.negative k n,
        sum_bins-add_sum v.positive k n,
        add_sum-IsDistinct v.negative k n h.negative_keys,
        add_sum-IsDistinct v.positive k n h.positive_keys,
      )

  add_bins_lem :
      (xs : List Float64) (v : SketchValue)
      → IsMaps v
      → (held (add_bins lib v xs) ≡ (held v + length xs) % 2 ^ 64)
        × IsMaps (add_bins lib v xs)
        × ((add_bins lib v xs).count ≡ v.count)
        × ((add_bins lib v xs).exact ≡ v.exact)
  unfolding held
  add_bins_lem [] v h = (omega arith, h, refl, refl)
  add_bins_lem (x ∷ xs) v h =
      let a = add_bin_lem v x 1 h in
      let b = add_bins_lem xs (add_bin lib v x 1) a.1 in ground (arith, a, b)

  approximate_some :
      (v : SketchValue) (xs : List Float64)
      → v.exact ≡ some xs
      → IsMaps v
      → IsApproximation v (collapse (record (add_bins lib v xs) { exact = none }))
  unfolding held
  approximate_some v xs e h =
      let (more, maps, count, exact) = add_bins_lem xs v h in
      let w : SketchValue = record (add_bins lib v xs) { exact = none } in
      let (b, same, maps', count', exact') =
        collapse_lem w
          (record { negative_keys = maps.negative_keys; positive_keys = maps.positive_keys }) in
      record {
        maps = maps';
        same_held = ground (arith, e, same, more, exact);
        same_count = count' ∙ count;
        no_exact = exact';
        same_bound = λ _. b;
      }

  -- The exact values become bins, with nothing lost.
  approximate_lem : (v : SketchValue) → IsMaps v → IsApproximation v (approximate lib v)
  unfolding approximate held
  approximate_lem v h =
      (elim v.exact
          as (λ e.
            v.exact ≡ e
            → IsApproximation v (elim e [
              | none ↦ v
              | some xs ↦ collapse (record (add_bins lib v xs) { exact = none })
            ])) [
              | none ↦ λ e. record {
                maps = h;
                same_held = refl;
                same_count = refl;
                no_exact = e;
                same_bound = λ b. b;
              }
              | some xs ↦ λ e. approximate_some v xs e h
            ])
        refl

  pub approximate-IsSketch : (v : SketchValue) → IsSketch v → IsSketch (approximate lib v)
  approximate-IsSketch v h =
      let a = approximate_lem v h.maps in
      record {
        maps = a.maps;
        counted = a.same_count ∙ h.counted ∙ sym a.same_held;
        bounded = a.same_bound h.bounded;
      }

  module _ (fp : Arith) where
    pub add_approx-IsSketch :
        (v : SketchValue) (x : Float64) → IsSketch v → IsSketch (add_approx lib fp v x)
    unfolding add_approx
    add_approx-IsSketch v x h =
        let (same, maps, count, _, _) = add_stats_lem fp v x h.maps in
        let (more, maps', count', _) = add_bin_lem (add_stats fp v x) x 1 maps in
        collapse-IsSketch (add_bin lib (add_stats fp v x) x 1) maps'
          (omega (arith, same, more, count, count', h.counted))

    pub add_exact-IsSketch :
        (v : SketchValue) (x : Float64) → IsSketch v → IsSketch (add_exact lib fp v x)
    unfolding add_exact add_stats
    add_exact-IsSketch v x h =
        let w : SketchValue = record (add_stats fp v x) { exact = append_slice v.exact (x ∷ []) } in
        let exact : IsSketch w =
          append_slice-IsSketch v w (x ∷ []) h (ground arith) refl (ground arith) (ground arith)
            (ground arith) in
        ground (arith, add_approx-IsSketch v x h, exact)

    -- Bins beside bins, behind `approximate` of both.
    merge_bins-IsSketch :
        (w other : SketchValue)
        → IsMaps w
        → IsSketch other
        → w.count ≡ (held w + other.count) % 2 ^ 64
        → let a = approximate lib w in
          let b = approximate lib other in
          IsSketch (
            collapse (record a {
              zero = (a.zero + b.zero) % 2 ^ 64;
              negative = add_entries a.negative b.negative;
              positive = add_entries a.positive b.positive;
            }))
    unfolding held
    merge_bins-IsSketch w other h k c =
        let a = approximate lib w in
        let b = approximate lib other in
        let ha = approximate_lem w h in
        let hb = approximate_lem other k.maps in
        collapse-IsSketch
          (record a {
            zero = (a.zero + b.zero) % 2 ^ 64;
            negative = add_entries a.negative b.negative;
            positive = add_entries a.positive b.positive;
          })
          (record {
            negative_keys = add_entries-IsDistinct b.negative a.negative ha.maps.negative_keys;
            positive_keys = add_entries-IsDistinct b.positive a.positive ha.maps.positive_keys;
          })
          (ground (
            arith,
            c,
            k.counted,
            ha.same_held,
            ha.same_count,
            ha.no_exact,
            hb.same_held,
            hb.no_exact,
            sum_bins-add_entries b.negative a.negative,
            sum_bins-add_entries b.positive a.positive,
          ))

    merge_exact-IsSketch :
        (v w other : SketchValue)
        → IsSketch v
        → IsSketch other
        → IsOneForm other
        → is_exact other ≡ true
        → w.count ≡ (v.count + other.count) % 2 ^ 64
        → w.exact ≡ append_slice v.exact (exact_values other)
        → w.zero ≡ v.zero
        → w.negative ≡ v.negative
        → w.positive ≡ v.positive
        → IsSketch w
    unfolding held sum_bins
    merge_exact-IsSketch v w other h k f e c x z n p =
        let own : other.count ≡ length (exact_values other) % 2 ^ 64 =
          ground (arith, k.counted, f.no_zero e, f.no_negative e, f.no_positive e) in
        append_slice-IsSketch v w (exact_values other) h (omega (arith, own, c)) x z n p

    pub merge_value-IsSketch :
        (v other : SketchValue)
        → IsSketch v
        → IsSketch other
        → IsOneForm other
        → IsSketch (merge_value lib fp v other)
    unfolding merge_value held
    merge_value-IsSketch v other h k f =
        let v' : SketchValue = record v {
          count = (v.count + other.count) % 2 ^ 64;
          sum = fp.add v.sum other.sum;
          min = if v.count == 0 then other.min else float_min v.min other.min;
          max = if v.count == 0 then other.max else float_max v.max other.max;
        } in
        let maps : IsMaps v' = record {
          negative_keys = h.maps.negative_keys;
          positive_keys = h.maps.positive_keys;
        } in
        ground (
          arith,
          h,
          merge_exact-IsSketch v (record v' { exact = append_slice v.exact (exact_values other) })
              other h k f,
          merge_bins-IsSketch v' other maps k (omega (arith, h.counted)),
        )
