-- ===== src/Append/Laws.antt =====
-- What `append` of codec.go comes to, and that its calls of itself end.
use trend.Prelude.{ℕ, suc, ◌≡◌, refl, sym, ◌∙◌, arith, true, false, ◌&&◌, Option, none, some}
use trend.Prelude.{List, [], ◌∷◌, leb, ◌==◌}
use trend.Data.{Pending, no_pending}
use trend.Samples.Merge.{merge-IsCanonical}
use trend.Samples.Appendable as SamplesOrder
use trend.Counters.Appendable as CountersOrder
use trend.Sketches.Appendable as SketchesOrder
use trend.Counters.Merge.{merge-IsRect}
use trend.Codec.Shape.{IsShape, valid_pending-IsShape}
use trend.Codec.Segment.{segment_size, scan}
use trend.Codec.Series.{Result, ok, err, append_to, pending, valid_series, valid_pending}
use trend.Codec.Reader.{make_panic}
use trend.State.{count_pending, appendable_pending, merge_panics, merge_pending}
use trend.Runtime.{Runtime}
use trend.Append.{can_append, append_series}

module _ (go : Runtime) where
  appendable_pending-merge : (p q : Pending) → appendable_pending (merge_pending go p q) ≡ true
  unfolding appendable_pending merge_pending
  appendable_pending-merge p q = ground (
    arith,
    SamplesOrder.appendable-merge go.fp p.samples q.samples,
    CountersOrder.appendable-merge go.counter_order p.counters q.counters,
    SketchesOrder.appendable-merge go.lib go.fp go.sketch_order p.sketches q.sketches,
  )

  pub merge-IsShape : (p q : Pending) → IsShape (merge_pending go p q)
  unfolding merge_pending
  merge-IsShape p q =
      let a = merge-IsCanonical go.fp p.samples q.samples in
      let b = merge-IsRect go.counter_order p.counters q.counters in
      (
        (a.values_length, a.clock_length, a.replica_length),
        (
          (b.replica_length, b.clock_length, b.value_length),
          SketchesOrder.merge-IsRect go.lib go.fp go.sketch_order p.sketches q.sketches,
        ),
      )

  valid_pending-merge : (p q : Pending) → valid_pending (merge_pending go p q) ≡ none
  valid_pending-merge p q = valid_pending-IsShape (merge_pending go p q) (merge-IsShape p q)

  -- `marshal` of a state that a merge gave: it is written, unless it is empty.
  unfoldable pub marshal_merged : Pending → Result (List ℕ)
  marshal_merged p = elim (count_pending p == 0) [ true ↦ ok [] | false ↦ append_to go.s2 p [] ]

  pub marshal-merge :
      (n : ℕ) (p q : Pending)
      → append_series go (suc n) [] (some (merge_pending go p q))
        ≡ some (marshal_merged (merge_pending go p q))
  unfolding append_series marshal_merged valid_series scan
  marshal-merge n p q = ground (arith, appendable_pending-merge p q, valid_pending-merge p q)

  abbrev merged_outcome : Pending → Pending → Result (List ℕ)
  merged_outcome current delta = elim (merge_panics current delta) [
    | true ↦ err make_panic
    | false ↦ marshal_merged (merge_pending go current delta)
  ]

  -- What `append` gives, without calls of itself.
  unfoldable pub append_outcome : List ℕ → Pending → Result (List ℕ)
  append_outcome s delta = elim (count_pending delta == 0) [
    | true ↦ elim (valid_series s) [ some e ↦ err e | none ↦ ok s ]
    | false ↦ elim (valid_pending delta) [
      | some e ↦ err e
      | none ↦ elim s [
        | [] ↦ elim (appendable_pending delta) [
          | true ↦ append_to go.s2 delta []
          | false ↦ merged_outcome no_pending delta
        ]
        | b ∷ bs ↦ elim (valid_series (b ∷ bs)) [
          | some e ↦ err e
          | none ↦
              elim (leb segment_size (count_pending delta)
                && (appendable_pending delta && can_append (b ∷ bs) delta)) [
                  | true ↦ append_to go.s2 delta (b ∷ bs)
                  | false ↦ elim (pending go.s2 (b ∷ bs)) [
                    | err e ↦ err e
                    | ok current ↦ merged_outcome current delta
                  ]
                ]
        ]
      ]
    ]
  ]

  abbrev loaded : List ℕ → Pending
  loaded s = elim (pending go.s2 s) [ err e ↦ no_pending | ok p ↦ p ]

  pub append_series_outcome :
      (n : ℕ) (s : List ℕ) (delta : Pending)
      → append_series go (suc (suc n)) s (some delta) ≡ some (append_outcome s delta)
  unfolding append_series append_outcome
  append_series_outcome n [] delta = ground (arith, marshal-merge n no_pending delta)
  append_series_outcome n (b ∷ bs) delta = ground (arith, marshal-merge n (loaded (b ∷ bs)) delta)

  -- More fuel than two calls does not change what `append` gives, which is a result: whatever the
  -- series and the delta are, its calls of itself end, since a merge leaves a state that is written as
  -- it is.
  pub append_series_fuel :
      (n : ℕ) (s : List ℕ) (delta : Option Pending)
      → (append_series go (suc (suc n)) s delta ≡ append_series go 2 s delta)
        × ((r : Result (List ℕ)) × (append_series go 2 s delta ≡ some r))
  append_series_fuel n s none = unfold append_series in (refl, (_, refl))
  append_series_fuel n s (some delta) = (
    append_series_outcome n s delta ∙ sym (append_series_outcome 0 s delta),
    (append_outcome s delta, append_series_outcome 0 s delta),
  )
