-- ===== src/Append/Loads.antt =====
-- What a series loads as behind `append` of codec.go.
use trend.Prelude.{
  ◌<◌, ◌≤◌, ℕ, zero, suc, ◌≡◌, ◌≢◌, refl, sym, ap, ◌∙◌, arith, ◌⊎◌, inl, inr, true, false, Option,
  none, some,
}
use trend.Prelude.{List, [], ◌∷◌, length, ◌==◌}
use trend.Data.{Pending, no_pending}
use trend.Samples
use trend.Counters
use trend.Sketches
use trend.Codec.Reader.{Error, Reader, ready}
use trend.Codec.Shape.{IsShape, valid_pending-IsShape}
use trend.Codec.Segment.{segment_size, IsLossless, Segment, read_segment, scan_loop, scan}
use trend.Codec.Series.{
  Result, ok, append_to, pending, pending_yield, max_time, valid_series, valid_pending,
}
use trend.Codec.RoundTrip.{IsStorable, concat, pending-append_to}
use trend.Codec.Extend.{
  stops_with_error, scan_of_pending, pending-nil, ok-injective, pending-append_to_series,
}
use trend.State.{count_pending, appendable_pending, min_time_pending, merge_panics, merge_pending}
use trend.Runtime.{Runtime}
use trend.Append.{can_append, append_series}
use trend.Append.Laws.{marshal_merged, append_outcome, append_series_outcome, merge-IsShape}

module _ (go : Runtime) where
  -- A scan that decodes well goes through where nothing is decoded.
  scan_loop_valid :
      (n : ℕ) (r : Reader) (t : Pending × Option Error) (q : Pending)
      → scan_loop (pending_yield go.s2) n r t ≡ ((q, none), none)
      → (scan_loop {S = Unit {0}} (λ _ u. (u, true)) n r tt).1 ≡ none
  unfolding scan_loop
  scan_loop_valid zero r t q h = ap (λ x. x.1) h
  scan_loop_valid (suc n) r t q h =
      let seg : Segment = (read_segment r).0 in
      ground (
        arith,
        h,
        stops_with_error go.s2 seg t,
        scan_loop_valid n (read_segment r).1 (pending_yield go.s2 seg t).0 q,
      )

  valid_series_of_pending :
      (s : List ℕ) (q : Pending) → pending go.s2 s ≡ ok q → valid_series s ≡ none
  unfolding valid_series scan
  valid_series_of_pending [] q h = refl
  valid_series_of_pending (v ∷ bs) q h =
      let (e, k) = scan_of_pending go.s2 v bs q h in
      ground (arith, e, scan_loop_valid (length bs) (ready bs) (no_pending, none) q k)

  valid_pending-IsStorable : (p : Pending) → IsStorable p → valid_pending p ≡ none
  valid_pending-IsStorable p v =
      let a = v.sample_rows in
      let b = v.counter_rows in
      let c = v.sketch_rows in
      valid_pending-IsShape p (
        (a.values_length, a.clock_length, a.replica_length),
        (
          (b.replica_length, b.clock_length, b.value_length),
          (c.values_length, c.clock_length, c.replica_length),
        ),
      )

  no_list : {A : Type 0} (xs : List A) → length xs ≡ 0 → xs ≡ []
  no_list [] h = refl
  no_list (x ∷ xs) h = absurd (omega arith)

  -- A state without rows and buckets is the empty one.
  count-zero : (p : Pending) → IsShape p → count_pending p ≡ 0 → p ≡ no_pending
  unfolding count_pending trend.Samples.count trend.Counters.count trend.Sketches.count
  count-zero p ((a, b, c), ((d, e, f), (g, h, i))) n =
      let s = p.samples in
      let k = p.counters in
      let z = p.sketches in
      let s1 = no_list s.time (omega arith) in
      let s2 = no_list s.values (omega arith) in
      let s3 = no_list s.clock (omega arith) in
      let s4 = no_list s.replica (omega arith) in
      let s5 = no_list s.buckets (omega arith) in
      let k1 = no_list k.time (omega arith) in
      let k2 = no_list k.replica (omega arith) in
      let k3 = no_list k.clock (omega arith) in
      let k4 = no_list k.value (omega arith) in
      let k5 = no_list k.buckets (omega arith) in
      let z1 = no_list z.time (omega arith) in
      let z2 = no_list z.values (omega arith) in
      let z3 = no_list z.clock (omega arith) in
      let z4 = no_list z.replica (omega arith) in
      let z5 = no_list z.buckets (omega arith) in
      λ j. record {
        samples = record {
          time = s1 j;
          values = s2 j;
          clock = s3 j;
          replica = s4 j;
          buckets = s5 j;
        };
        counters = record {
          time = k1 j;
          replica = k2 j;
          clock = k3 j;
          value = k4 j;
          buckets = k5 j;
        };
        sketches = record {
          time = z1 j;
          values = z2 j;
          clock = z3 j;
          replica = z4 j;
          buckets = z5 j;
        };
      }

  -- A delta goes behind a series where its columns are in order, and where there is no series yet, or
  -- the delta has at least 1024 entries and its first time, if any, comes behind the last of the
  -- series, if any.
  abbrev pub IsBehind : List ℕ → Pending → Type 0
  IsBehind s delta =
      (appendable_pending delta ≡ true)
      × ((s ≡ [])
          ⊎ (segment_size ≤ count_pending delta)
            × (((max_time s).1 ≡ false)
                ⊎ ((min_time_pending delta).1 ≡ false)
                ⊎ ((max_time s).0 < (min_time_pending delta).0)))

  -- The other deltas, which are merged into the series.
  abbrev pub IsMerged : List ℕ → Pending → Type 0
  IsMerged s delta =
      (appendable_pending delta ≡ false)
      ⊎ ((length s ≢ 0)
          × ((count_pending delta < segment_size)
              ⊎ ((max_time s).1 ≡ true)
                × ((min_time_pending delta).1 ≡ true)
                × ((min_time_pending delta).0 ≤ (max_time s).0)))

  -- Which of its two ways `append` takes where nothing is refused.
  outcome_cases :
      (s : List ℕ) (q delta : Pending)
      → pending go.s2 s ≡ ok q
      → valid_pending delta ≡ none
      → count_pending delta ≢ 0
      → merge_panics q delta ≡ false
      → (IsBehind s delta × (append_outcome go s delta ≡ append_to go.s2 delta s))
        ⊎ (IsMerged s delta
            × (append_outcome go s delta ≡ marshal_merged go (merge_pending go q delta)))
  unfolding append_outcome can_append
  outcome_cases [] q delta h v c n =
      let e : no_pending ≡ q = ok-injective go.s2 no_pending q (sym (pending-nil go.s2) ∙ h) in
      let calm : merge_panics no_pending delta ≡ false = rw e n in
      rw (← e) (ground (arith, v, c, calm))
  outcome_cases (b ∷ bs) q delta h v c n =
      ground (arith, h, v, c, n, valid_series_of_pending (b ∷ bs) q h)

  module _ (lossless : IsLossless go.s2) where
    -- `bs` is the result `r`, and it loads as `p`.
    abbrev pub Loads : Result (List ℕ) → Pending → Type 0
    Loads r p = (bs : List ℕ) × (r ≡ ok bs) × (pending go.s2 bs ≡ ok p)

    pub marshal_merged-Loads :
        (p q : Pending)
        → IsStorable (merge_pending go p q)
        → Loads (marshal_merged go (merge_pending go p q)) (merge_pending go p q)
    unfolding marshal_merged
    marshal_merged-Loads p q v =
        let m = merge_pending go p q in
        let written = pending-append_to go.s2 lossless m v in
        let empty : (count_pending m ≡ 0) → pending go.s2 [] ≡ ok m =
          λ e. pending-nil go.s2 ∙ ap ok (sym (count-zero m (merge-IsShape go p q) e)) in
        elim (count_pending m == 0)
            as (λ c.
              (c ≡ true → count_pending m ≡ 0)
              → Loads (elim c [ true ↦ ok [] | false ↦ append_to go.s2 m [] ]) m) [
                | true ↦ λ k. ([], refl, empty (k refl))
                | false ↦ λ k. written
              ]
          (λ c. ground (arith, c))

    -- With a lossless compressor, let a series load as `q`, let a delta that is not empty, and
    -- its merge into `q`, be storable, and let no stored sketch make the merge panic. Then two calls
    -- of `append` and `marshal` end without an error. A delta whose columns are in order, and that
    -- has at least 1024 entries, all behind the series, or no series before it, goes behind it: the
    -- result loads as `q` with the delta behind it. Any other delta is merged, and the result loads
    -- as the merge.
    pub append_series-loads :
        (s : List ℕ) (q delta : Pending)
        → pending go.s2 s ≡ ok q
        → IsStorable delta
        → IsStorable (merge_pending go q delta)
        → count_pending delta ≢ 0
        → merge_panics q delta ≡ false
        → (bs : List ℕ) × (append_series go 2 s (some delta) ≡ some (ok bs))
          × ((IsMerged s delta × (pending go.s2 bs ≡ ok (merge_pending go q delta)))
              ⊎ (IsBehind s delta × (pending go.s2 bs ≡ ok (concat q delta))))
    append_series-loads s q delta h v w c n =
        let out = append_series_outcome go 0 s delta in
        elim (outcome_cases s q delta h (valid_pending-IsStorable delta v) c n) [
          | inl (a, e) ↦
              let (bs, f, k) = pending-append_to_series go.s2 lossless delta v s q h in
              (bs, out ∙ ap some (e ∙ f), inr (a, k))
          | inr (a, e) ↦
              let (bs, f, k) = marshal_merged-Loads q delta w in
              (bs, out ∙ ap some (e ∙ f), inl (a, k))
        ]
