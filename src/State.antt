-- ===== src/State.antt =====
-- The operations of pending in series.go.
use trend.Prelude.{◌==◌, length, ℕ, ◌+◌, Bool, true, ◌&&◌, ◌||◌, not, ltb, if◌then◌else◌}
use trend.Data.{Pending}
use trend.Samples
use trend.Counters
use trend.Sketches
use trend.Sketches.Merge
use trend.Runtime.{Runtime}

unfoldable pub reset_pending : Pending → Pending
reset_pending p = record {
  samples = trend.Samples.reset p.samples;
  counters = trend.Counters.reset p.counters;
  sketches = trend.Sketches.reset p.sketches;
}

unfoldable pub count_pending : Pending → ℕ
count_pending p =
    trend.Samples.count p.samples
    + trend.Counters.count p.counters
    + trend.Sketches.count p.sketches

unfoldable pub appendable_pending : Pending → Bool
appendable_pending p =
    trend.Samples.appendable p.samples
    && (trend.Counters.appendable p.counters && trend.Sketches.appendable p.sketches)

-- One of the two tests of `minTime`.
abbrev sooner : ℕ × Bool → ℕ × Bool → ℕ × Bool
sooner (out, found) (v, has) = if has && (not found || ltb v out) then (v, true) else (out, found)

unfoldable pub min_time_pending : Pending → ℕ × Bool
min_time_pending p =
    sooner (sooner (trend.Samples.min_time p.samples) (trend.Counters.min_time p.counters))
      (trend.Sketches.min_time p.sketches)

-- Whether a merge, and a compaction, panic in `decodeSketch`: `merge_pending` and `compact_pending`
-- below are what these give where they do not.
unfoldable pub merge_panics : Pending → Pending → Bool
merge_panics p delta =
    trend.Sketches.Merge.panics p.sketches.buckets
    || trend.Sketches.Merge.panics delta.sketches.buckets

unfoldable pub compact_panics : Pending → Bool → Bool
compact_panics p positive =
    positive
    && (not (length p.sketches.time == 0) && trend.Sketches.Merge.panics p.sketches.buckets)

module _ (go : Runtime) where
  unfoldable pub merge_pending : Pending → Pending → Pending
  merge_pending p delta = record {
    samples = trend.Samples.merge go.fp p.samples delta.samples;
    counters = trend.Counters.merge go.counter_order p.counters delta.counters;
    sketches = trend.Sketches.Merge.merge go.lib go.fp go.sketch_order p.sketches delta.sketches;
  }

  -- `positive` is `span > 0`, and `span` is `uint64(span.Seconds())`.
  unfoldable pub compact_pending : Pending → ℕ → Bool → ℕ → Pending
  compact_pending p cutoff positive span =
      if positive
      then record {
        samples = trend.Samples.compact go.fp p.samples cutoff span;
        counters = trend.Counters.compact p.counters cutoff span;
        sketches = trend.Sketches.Merge.compact go.lib go.fp p.sketches cutoff span;
      }
      else p
