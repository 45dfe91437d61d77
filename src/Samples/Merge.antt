-- ===== src/Samples/Merge.antt =====
-- `Merge` of sampleData in sample_state.go, on the raw points.
use trend.Prelude.{ℕ, ◌≡◌, refl, sym, ap, ◌∙◌, arith}
use trend.Prelude.{
  Option, none, some, List, [], ◌∷◌, ◌++◌, append-nil, append_assoc, map, foldl, length, length-map,
}
use trend.Prelude.{◌==◌, ltb, if◌then◌else◌}
use trend.Float.{Float64, Arith}
use trend.Data.{SampleData}
use trend.Maps.{lookup, insert, keys, get_or, sorted_times, IsIncreasing}
use trend.Maps.Laws.{
  lookup-insert, insert-IsDistinct, IsDistinct, sorted_times-IsIncreasing, lookup-sorted_entries,
  entries, lookup_above,
}
use trend.Samples.{
  SamplePoint, zero_point, add, rows_of, rows, put_point, merge_point, points_of, add_points, merge,
}

-- The point that is kept at a time, by the clock and then by the replica: the next one where its
-- clock is greater, or the clocks are equal and its replica is greater, else the old one.
unfoldable pub join : Option SamplePoint → Option SamplePoint → Option SamplePoint
join none next = next
join (some old) none = some old
join (some old) (some next) =
    if ltb old.clock next.clock
    then some next
    else if old.clock == next.clock
    then (if ltb old.replica next.replica then some next else some old)
    else some old

lookup-merge_point :
    (t k : ℕ) (p : SamplePoint) (m : List (ℕ × SamplePoint))
    → lookup t (merge_point m (k, p)) ≡ (if k == t then join (lookup t m) (some p) else lookup t m)
unfolding merge_point join trend.Samples.newer_sample
lookup-merge_point t k p m = ground (arith, lookup-insert t k p m)

-- What the first loop leaves at a time: the last point of the list there, else what was there.
abbrev over : Option SamplePoint → Option SamplePoint → Option SamplePoint
over old none = old
over old (some p) = some p

lookup-put_points :
    (t : ℕ) (rs m : List (ℕ × SamplePoint))
    → IsIncreasing (keys rs)
    → lookup t (foldl put_point m rs) ≡ over (lookup t m) (lookup t rs)
unfolding lookup
lookup-put_points t [] m h = refl
lookup-put_points t ((k, p) ∷ rs) m (q, h) =
    ground
      (arith, lookup-insert t k p m, lookup-put_points t rs (insert k p m) h, lookup_above k rs q)

join-none : (o : Option SamplePoint) → join o none ≡ o
unfolding join
join-none none = refl
join-none (some p) = refl

lookup-merge_points :
    (t : ℕ) (rs m : List (ℕ × SamplePoint))
    → IsIncreasing (keys rs)
    → lookup t (foldl merge_point m rs) ≡ join (lookup t m) (lookup t rs)
unfolding lookup
lookup-merge_points t [] m h = sym (join-none (lookup t m))
lookup-merge_points t ((k, p) ∷ rs) m (q, h) = ground (
  arith,
  lookup-merge_point t k p m,
  lookup-merge_points t rs (merge_point m (k, p)) h,
  lookup_above k rs q,
  join-none (join (lookup t m) (some p)),
)

over-none : (o : Option SamplePoint) → over none o ≡ o
over-none none = refl
over-none (some p) = refl

merge_point-IsDistinct :
    (e : ℕ × SamplePoint) (m : List (ℕ × SamplePoint))
    → IsDistinct (keys m)
    → IsDistinct (keys (merge_point m e))
unfolding merge_point
merge_point-IsDistinct (k, p) m h = ground (arith, insert-IsDistinct k p m h)

put_points-IsDistinct :
    (rs m : List (ℕ × SamplePoint)) → IsDistinct (keys m) → IsDistinct (keys (foldl put_point m rs))
put_points-IsDistinct [] m h = h
put_points-IsDistinct ((k, p) ∷ rs) m h =
    put_points-IsDistinct rs (insert k p m) (insert-IsDistinct k p m h)

merge_points-IsDistinct :
    (rs m : List (ℕ × SamplePoint))
    → IsDistinct (keys m)
    → IsDistinct (keys (foldl merge_point m rs))
merge_points-IsDistinct [] m h = h
merge_points-IsDistinct (e ∷ rs) m h =
    merge_points-IsDistinct rs (merge_point m e) (merge_point-IsDistinct e m h)

points_of-IsDistinct : (d delta : SampleData) → IsDistinct (keys (points_of d delta))
unfolding points_of
points_of-IsDistinct d delta =
    merge_points-IsDistinct (rows delta) (foldl put_point [] (rows d))
      (put_points-IsDistinct (rows d) [] tt)

-- Columns of one length, in the strict order of their times.
pub record IsCanonical (d : SampleData) : Type 0 where
  pub values_length : length d.values ≡ length d.time
  pub clock_length : length d.clock ≡ length d.time
  pub replica_length : length d.replica ≡ length d.time
  pub increasing : IsIncreasing d.time

keys-rows_of :
    (ts : List ℕ) (vs : List Float64) (cs rs : List ℕ)
    → length vs ≡ length ts
    → length cs ≡ length ts
    → length rs ≡ length ts
    → keys (rows_of ts vs cs rs) ≡ ts
unfolding rows_of
keys-rows_of [] vs cs rs p q r = refl
keys-rows_of (t ∷ ts) [] cs rs p q r = absurd (omega arith)
keys-rows_of (t ∷ ts) (v ∷ vs) [] rs p q r = absurd (omega arith)
keys-rows_of (t ∷ ts) (v ∷ vs) (c ∷ cs) [] p q r = absurd (omega arith)
keys-rows_of (t ∷ ts) (v ∷ vs) (c ∷ cs) (s ∷ rs) p q r =
    ap (λ ys. t ∷ ys) (keys-rows_of ts vs cs rs (omega arith) (omega arith) (omega arith))

pub keys-rows : (d : SampleData) → IsCanonical d → keys (rows d) ≡ d.time
unfolding rows
keys-rows d v =
    keys-rows_of d.time d.values d.clock d.replica v.values_length v.clock_length v.replica_length

pub rows-IsIncreasing : (d : SampleData) → IsCanonical d → IsIncreasing (keys (rows d))
rows-IsIncreasing d v = rw (keys-rows d v) v.increasing

lookup-first_loop :
    (t : ℕ) (d : SampleData)
    → IsCanonical d
    → lookup t (foldl put_point [] (rows d)) ≡ lookup t (rows d)
lookup-first_loop t d h =
    lookup-put_points t (rows d) [] (rows-IsIncreasing d h)
    ∙ unfold lookup in over-none (lookup t (rows d))

module _ (points : List (ℕ × SamplePoint)) where
  abbrev point_at : ℕ → SamplePoint
  point_at t = get_or points t zero_point

  -- The last loop of `Merge` appends a column each.
  add_points-columns :
      (ts : List ℕ) (d : SampleData)
      → add_points d points ts ≡ record d {
        time = d.time ++ ts;
        values = d.values ++ map (λ t. (point_at t).value) ts;
        clock = d.clock ++ map (λ t. (point_at t).clock) ts;
        replica = d.replica ++ map (λ t. (point_at t).replica) ts;
      }
  unfolding add_points add
  add_points-columns [] d = simp append-nil
  add_points-columns (t ∷ ts) d =
      let p = point_at t in
      add_points-columns ts (add d t p.value p.clock p.replica) ∙ simp append_assoc

  rows_of-columns :
      (ts : List ℕ)
      → rows_of ts
          (map (λ t. (point_at t).value) ts)
          (map (λ t. (point_at t).clock) ts)
          (map (λ t. (point_at t).replica) ts)
        ≡ map (λ t. (t, point_at t)) ts
  unfolding rows_of
  rows_of-columns [] = refl
  rows_of-columns (t ∷ ts) = ap (λ ys. (t, point_at t) ∷ ys) (rows_of-columns ts)

module _ (fp : Arith) (d delta : SampleData) where
  merge-columns :
      let points = points_of d delta in
      let ts = sorted_times points in
      ((merge fp d delta).time ≡ ts)
      × ((merge fp d delta).values ≡ map (λ t. (point_at points t).value) ts)
      × ((merge fp d delta).clock ≡ map (λ t. (point_at points t).clock) ts)
      × ((merge fp d delta).replica ≡ map (λ t. (point_at points t).replica) ts)
  unfolding merge
  merge-columns =
      let points = points_of d delta in
      let cleared : SampleData = record d { time = []; values = []; clock = []; replica = [] } in
      let e = add_points-columns points (sorted_times points) cleared in
      (ap (λ x. x.time) e, ap (λ x. x.values) e, ap (λ x. x.clock) e, ap (λ x. x.replica) e)

  -- Whatever the operands hold, a merged series has columns of one length, and its times strictly
  -- increase.
  pub merge-IsCanonical : IsCanonical (merge fp d delta)
  merge-IsCanonical =
      let (t, v, c, r) = merge-columns in
      record {
        values_length = rw (t, v) (length-map _ _);
        clock_length = rw (t, c) (length-map _ _);
        replica_length = rw (t, r) (length-map _ _);
        increasing = rw t (sorted_times-IsIncreasing _ (points_of-IsDistinct d delta));
      }

  rows-merge :
      rows (merge fp d delta)
      ≡ entries zero_point (points_of d delta) (sorted_times (points_of d delta))
  unfolding rows
  rows-merge = let (t, v, c, r) = merge-columns in rw (t, v, c, r) (rows_of-columns _ _)

  -- At every time the merge of two canonical series holds, of their points, the one with the greater
  -- clock, at equal clocks the one with the greater replica, and the first one's at equal replicas.
  pub lookup-merge :
      (t : ℕ)
      → IsCanonical d
      → IsCanonical delta
      → lookup t (rows (merge fp d delta)) ≡ join (lookup t (rows d)) (lookup t (rows delta))
  unfolding points_of
  lookup-merge t p q =
      ap (lookup t) rows-merge
      ∙ lookup-sorted_entries zero_point t (points_of d delta)
      ∙ lookup-merge_points t (rows delta) (foldl put_point [] (rows d)) (rows-IsIncreasing delta q)
      ∙ ap (λ o. join o (lookup t (rows delta))) (lookup-first_loop t d p)
