-- ===== src/Sketches/Bounds.antt =====
-- The invariant of sketchValue in sketch_state.go: at most 1024 bins, and a count that its parts
-- make up.
use trend.Prelude.{ℕ, zero, suc, ◌+◌, ◌%◌, ◌^◌, ◌≤◌, ◌<◌, ◌≡◌, refl, sym, ◌∙◌, arith}
use trend.Prelude.{length}
use trend.Float.{Float64, Arith}
use trend.Maps.{keys}
use trend.Maps.Laws.{IsDistinct}
use trend.Sketches.Value.{
  sketch_max_bins, SketchValue, no_value, exact_values, min_key, bins, collapse_step, collapse_loop,
  collapse, add_stats,
}
use trend.Sketches.Encoded.{sum_bins}
use trend.Sketches.Bins.{
  sum_bins-remove, length-remove-lt, remove-IsDistinct, min_key-mem, min_key-none,
}

-- The observations that a value holds, on uint64.
unfoldable pub held : SketchValue → ℕ
held v = (length (exact_values v) + v.zero + sum_bins v.negative + sum_bins v.positive) % 2 ^ 64

pub record IsMaps (v : SketchValue) : Type 0 where
  pub negative_keys : IsDistinct (keys v.negative)
  pub positive_keys : IsDistinct (keys v.positive)

-- A round takes a bin away and none of its observations.
collapse_step_lem :
    (v : SketchValue)
    → IsMaps v
    → 0 < bins v
    → (bins (collapse_step v) < bins v)
      × (held (collapse_step v) ≡ held v)
      × IsMaps (collapse_step v)
      × ((collapse_step v).count ≡ v.count)
      × ((collapse_step v).exact ≡ v.exact)
unfolding collapse_step held
collapse_step_lem v h b =
    let nk = (min_key v.negative).0 in
    let pk = (min_key v.positive).0 in
    ground (
      arith,
      h,
      b,
      min_key-mem v.negative,
      min_key-mem v.positive,
      min_key-none v.negative,
      min_key-none v.positive,
      length-remove-lt v.negative nk,
      length-remove-lt v.positive pk,
      sum_bins-remove v.negative nk h.negative_keys,
      sum_bins-remove v.positive pk h.positive_keys,
      remove-IsDistinct v.negative nk h.negative_keys,
      remove-IsDistinct v.positive pk h.positive_keys,
    )

collapse_loop_lem :
    (n : ℕ) (v : SketchValue)
    → IsMaps v
    → bins v ≤ n
    → (bins (collapse_loop n v) ≤ sketch_max_bins)
      × (held (collapse_loop n v) ≡ held v)
      × IsMaps (collapse_loop n v)
      × ((collapse_loop n v).count ≡ v.count)
      × ((collapse_loop n v).exact ≡ v.exact)
unfolding collapse_loop
collapse_loop_lem zero v h b = (omega (arith, b), refl, h, refl, refl)
collapse_loop_lem (suc n) v h b =
    ground (arith, h, b, collapse_step_lem v h, collapse_loop_lem n (collapse_step v))

pub collapse_lem :
    (v : SketchValue)
    → IsMaps v
    → (bins (collapse v) ≤ sketch_max_bins)
      × (held (collapse v) ≡ held v)
      × IsMaps (collapse v)
      × ((collapse v).count ≡ v.count)
      × ((collapse v).exact ≡ v.exact)
unfolding collapse
collapse_lem v h = collapse_loop_lem (bins v) v h (omega arith)

-- What every sketch holds: maps with one entry to a key, a count of its observations, and no more
-- bins than sketchMaxBins.
pub record IsSketch (v : SketchValue) : Type 0 where
  pub maps : IsMaps v
  pub counted : v.count ≡ held v
  pub bounded : bins v ≤ sketch_max_bins

pub no_value-IsSketch : IsSketch no_value
unfolding held sum_bins
no_value-IsSketch = record {
  maps = record { negative_keys = tt; positive_keys = tt };
  counted = refl;
  bounded = omega arith;
}

-- A collapse brings the bins back under their bound.
pub collapse-IsSketch : (v : SketchValue) → IsMaps v → v.count ≡ held v → IsSketch (collapse v)
collapse-IsSketch v h c =
    let (b, same, maps, count, _) = collapse_lem v h in
    record { maps = maps; counted = count ∙ c ∙ sym same; bounded = b }

pub add_stats_lem :
    (fp : Arith) (v : SketchValue) (x : Float64)
    → IsMaps v
    → (held (add_stats fp v x) ≡ held v)
      × IsMaps (add_stats fp v x)
      × ((add_stats fp v x).count ≡ (v.count + 1) % 2 ^ 64)
      × ((add_stats fp v x).exact ≡ v.exact)
      × (bins (add_stats fp v x) ≡ bins v)
unfolding add_stats held
add_stats_lem fp v x h = ground (arith, h)
