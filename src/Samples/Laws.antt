-- ===== src/Samples/Laws.antt =====
-- The algebra of `Merge` of sampleData in sample_state.go, which replicas rely on.
use trend.Prelude.{ℕ, ◌≡◌, refl, sym, ap, ◌∙◌, arith}
use trend.Prelude.{Option, none, some, List, [], ◌∷◌, map, length}
use trend.Float.{Float64, Arith}
use trend.Data.{SampleData}
use trend.Maps.{lookup, keys}
use trend.Maps.Laws.{eq_of_lookup}
use trend.Samples.{SamplePoint, rows_of, rows, newer_sample, merge}
use trend.Samples.Merge.{join, IsCanonical, merge-IsCanonical, lookup-merge, rows-IsIncreasing}

-- The raw points of a series, without its buckets.
unfoldable pub raw : SampleData → SampleData
raw d = record d { buckets = [] }

join_assoc : (a b c : Option SamplePoint) → join (join a b) c ≡ join a (join b c)
unfolding join newer_sample
join_assoc none b c = refl
join_assoc (some a) none c = refl
join_assoc (some a) (some b) none = ground arith
join_assoc (some a) (some b) (some c) = ground arith

join_idem : (a : Option SamplePoint) → join a a ≡ a
unfolding join newer_sample
join_idem none = refl
join_idem (some a) = ground arith

-- Two points with one clock and one replica are one point.
abbrev pub Agree : Option SamplePoint → Option SamplePoint → Type 0
Agree (some a) (some b) = a.clock ≡ b.clock → a.replica ≡ b.replica → a.value ≡ b.value
Agree _ _ = Unit

point_eq :
    (a b : SamplePoint) → a.value ≡ b.value → a.clock ≡ b.clock → a.replica ≡ b.replica → a ≡ b
point_eq a b p q r = λ i. record { value = p i; clock = q i; replica = r i }

join_comm : (a b : Option SamplePoint) → Agree a b → join a b ≡ join b a
unfolding join newer_sample
join_comm none none h = refl
join_comm none (some b) h = refl
join_comm (some a) none h = refl
join_comm (some a) (some b) h = ground (arith, point_eq a b, h)

-- The columns of rows.
abbrev of_rows : List (ℕ × SamplePoint) → SampleData
of_rows rs = record {
  time = keys rs;
  values = map (λ e. e.1.value) rs;
  clock = map (λ e. e.1.clock) rs;
  replica = map (λ e. e.1.replica) rs;
  buckets = [];
}

of_rows-rows_of :
    (ts : List ℕ) (vs : List Float64) (cs rs : List ℕ)
    → length vs ≡ length ts
    → length cs ≡ length ts
    → length rs ≡ length ts
    → of_rows (rows_of ts vs cs rs)
      ≡ record { time = ts; values = vs; clock = cs; replica = rs; buckets = [] }
unfolding rows_of
of_rows-rows_of [] [] [] [] p q r = refl
of_rows-rows_of [] (v ∷ vs) cs rs p q r = absurd (omega arith)
of_rows-rows_of [] [] (c ∷ cs) rs p q r = absurd (omega arith)
of_rows-rows_of [] [] [] (s ∷ rs) p q r = absurd (omega arith)
of_rows-rows_of (t ∷ ts) [] cs rs p q r = absurd (omega arith)
of_rows-rows_of (t ∷ ts) (v ∷ vs) [] rs p q r = absurd (omega arith)
of_rows-rows_of (t ∷ ts) (v ∷ vs) (c ∷ cs) [] p q r = absurd (omega arith)
of_rows-rows_of (t ∷ ts) (v ∷ vs) (c ∷ cs) (s ∷ rs) p q r =
    let e = of_rows-rows_of ts vs cs rs (omega arith) (omega arith) (omega arith) in
    λ i. record {
      time = t ∷ (e i).time;
      values = v ∷ (e i).values;
      clock = c ∷ (e i).clock;
      replica = s ∷ (e i).replica;
      buckets = [];
    }

raw-of_rows : (d : SampleData) → IsCanonical d → raw d ≡ of_rows (rows d)
unfolding raw rows
raw-of_rows d v = sym (
    of_rows-rows_of d.time d.values d.clock d.replica v.values_length v.clock_length
      v.replica_length)

-- Canonical series that read alike hold the same points.
raw-eq :
    (d e : SampleData)
    → IsCanonical d
    → IsCanonical e
    → ((t : ℕ) → lookup t (rows d) ≡ lookup t (rows e))
    → raw d ≡ raw e
raw-eq d e v w h =
    raw-of_rows d v
    ∙ ap of_rows (eq_of_lookup (rows d) (rows e) (rows-IsIncreasing d v) (rows-IsIncreasing e w) h)
    ∙ sym (raw-of_rows e w)

module _ (fp : Arith) where
  -- A canonical state that is merged into itself keeps its points.
  pub merge_idem : (a : SampleData) → IsCanonical a → raw (merge fp a a) ≡ raw a
  merge_idem a v =
      raw-eq (merge fp a a) a (merge-IsCanonical fp a a) v
        λ t. lookup-merge fp a a t v v ∙ join_idem (lookup t (rows a))

  -- Two canonical states have the same points whichever of them is merged into the other, if points
  -- of one time with the same clock and replica have the same value.
  pub merge_comm :
      (a b : SampleData)
      → IsCanonical a
      → IsCanonical b
      → ((t : ℕ) → Agree (lookup t (rows a)) (lookup t (rows b)))
      → raw (merge fp a b) ≡ raw (merge fp b a)
  merge_comm a b v w h =
      raw-eq (merge fp a b) (merge fp b a) (merge-IsCanonical fp a b) (merge-IsCanonical fp b a)
        λ t.
          lookup-merge fp a b t v w
          ∙ join_comm (lookup t (rows a)) (lookup t (rows b)) (h t)
          ∙ sym (lookup-merge fp b a t w v)

  -- Three canonical states have the same points whether the first two or the last two are merged
  -- first.
  pub merge_assoc :
      (a b c : SampleData)
      → IsCanonical a
      → IsCanonical b
      → IsCanonical c
      → raw (merge fp (merge fp a b) c) ≡ raw (merge fp a (merge fp b c))
  merge_assoc a b c u v w =
      let ab = merge-IsCanonical fp a b in
      let bc = merge-IsCanonical fp b c in
      raw-eq (merge fp (merge fp a b) c) (merge fp a (merge fp b c))
        (merge-IsCanonical fp (merge fp a b) c) (merge-IsCanonical fp a (merge fp b c))
        λ t.
          lookup-merge fp (merge fp a b) c t ab w
          ∙ ap (λ o. join o (lookup t (rows c))) (lookup-merge fp a b t u v)
          ∙ join_assoc (lookup t (rows a)) (lookup t (rows b)) (lookup t (rows c))
          ∙ ap (join (lookup t (rows a))) (sym (lookup-merge fp b c t v w))
          ∙ sym (lookup-merge fp a (merge fp b c) t u bc)
