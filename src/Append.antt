-- ===== src/Append.antt =====
-- `append`, `marshal` and `canAppend` of codec.go: a delta goes behind a stored series, or is merged
-- into it.
pub mod Laws
pub mod Loads
use trend.Prelude.{ℕ, zero, suc, Bool, true, false, ◌&&◌, ◌||◌, not, Option, none, some}
use trend.Prelude.{List, [], ◌∷◌, ltb, leb, ◌==◌, if◌then◌else◌}
use trend.Data.{Pending, no_pending}
use trend.Codec.Segment.{segment_size}
use trend.Codec.Series.{Result, ok, err, append_to, pending, valid_series, valid_pending, max_time}
use trend.Codec.Reader.{make_panic}
use trend.State.{count_pending, appendable_pending, min_time_pending, merge_panics, merge_pending}
use trend.Runtime.{Runtime}

unfoldable pub can_append : List ℕ → Pending → Bool
can_append s delta =
    let (next, found) = min_time_pending delta in
    let (last, has) = max_time s in not found || (not has || ltb last next)

module _ (go : Runtime) where
  -- `append` and `marshal`, which call each other. `none` is a run that the fuel does not cover, and
  -- a delta of `none` is nil. Where the series is not valid, Go hands back a copy with the error.
  unfoldable pub append_series : ℕ → List ℕ → Option Pending → Option (Result (List ℕ))
  append_series zero s delta = none
  append_series (suc n) s none = some (elim (valid_series s) [ some e ↦ err e | none ↦ ok s ])
  append_series (suc n) s (some delta) =
      let marshal : Pending → Option (Result (List ℕ)) = λ p. append_series n [] (some p) in
      let merged : Pending → Option (Result (List ℕ)) = λ current.
        elim (merge_panics current delta) [
          | true ↦ some (err make_panic)
          | false ↦ marshal (merge_pending go current delta)
        ] in
      elim (count_pending delta == 0) [
        | true ↦ some (elim (valid_series s) [ some e ↦ err e | none ↦ ok s ])
        | false ↦ elim (valid_pending delta) [
          | some e ↦ some (err e)
          | none ↦ elim s [
            | [] ↦ elim (appendable_pending delta) [
              | true ↦ some (append_to go.s2 delta [])
              | false ↦ merged no_pending
            ]
            | b ∷ bs ↦ elim (valid_series (b ∷ bs)) [
              | some e ↦ some (err e)
              | none ↦
                  elim (leb segment_size (count_pending delta)
                    && (appendable_pending delta && can_append (b ∷ bs) delta)) [
                      | true ↦ some (append_to go.s2 delta (b ∷ bs))
                      | false ↦ elim (pending go.s2 (b ∷ bs)) [
                        | err e ↦ some (err e)
                        | ok current ↦ merged current
                      ]
                    ]
            ]
          ]
        ]
      ]
