-- ===== src/Samples/Kept.antt =====
-- The raw points that `Compact` of sampleData keeps.
use trend.Prelude.{ℕ, ◌≡◌, refl, sym, ap, arith}
use trend.Prelude.{List, [], ◌∷◌, ◌++◌, append-nil, append_assoc, foldl, length, length-append}
use trend.Float.{Float64, Arith}
use trend.Data.{SampleData, SampleBucket}
use trend.Times.{bucket_of}
use trend.Maps.{insert, get_or}
use trend.Samples.{SamplePoint, zero_bucket, add, rows_of, rows, pack, compact_row, compact}
use trend.Samples.Compact.{recent, no_rows}

-- Columns of one length.
record IsRect (d : SampleData) : Type 0 where
  values_length : length d.values ≡ length d.time
  clock_length : length d.clock ≡ length d.time
  replica_length : length d.replica ≡ length d.time

rows_of-append :
    (ts : List ℕ) (vs : List Float64) (cs rs : List ℕ) (t : ℕ) (v : Float64) (c r : ℕ)
    → length vs ≡ length ts
    → length cs ≡ length ts
    → length rs ≡ length ts
    → rows_of (ts ++ (t ∷ [])) (vs ++ (v ∷ [])) (cs ++ (c ∷ [])) (rs ++ (r ∷ []))
      ≡ rows_of ts vs cs rs ++ ((t, record { value = v; clock = c; replica = r }) ∷ [])
unfolding rows_of
rows_of-append [] [] [] [] t v c r p q s = refl
rows_of-append [] (x ∷ vs) cs rs t v c r p q s = absurd (omega arith)
rows_of-append [] [] (x ∷ cs) rs t v c r p q s = absurd (omega arith)
rows_of-append [] [] [] (x ∷ rs) t v c r p q s = absurd (omega arith)
rows_of-append (y ∷ ts) [] cs rs t v c r p q s = absurd (omega arith)
rows_of-append (y ∷ ts) (x ∷ vs) [] rs t v c r p q s = absurd (omega arith)
rows_of-append (y ∷ ts) (x ∷ vs) (z ∷ cs) [] t v c r p q s = absurd (omega arith)
rows_of-append (y ∷ ts) (x ∷ vs) (z ∷ cs) (w ∷ rs) t v c r p q s =
    ap (λ ys. (y, record { value = x; clock = z; replica = w }) ∷ ys)
      (rows_of-append ts vs cs rs t v c r (omega arith) (omega arith) (omega arith))

add-IsRect : (d : SampleData) (t : ℕ) (v : Float64) (c r : ℕ) → IsRect d → IsRect (add d t v c r)
unfolding add
add-IsRect d t v c r h =
    let n = length-append d.time (t ∷ []) in
    record {
      values_length = omega (arith, n, h.values_length, length-append d.values (v ∷ []));
      clock_length = omega (arith, n, h.clock_length, length-append d.clock (c ∷ []));
      replica_length = omega (arith, n, h.replica_length, length-append d.replica (r ∷ []));
    }

rows-add :
    (d : SampleData) (t : ℕ) (v : Float64) (c r : ℕ)
    → IsRect d
    → rows (add d t v c r) ≡ rows d ++ ((t, record { value = v; clock = c; replica = r }) ∷ [])
unfolding rows add
rows-add d t v c r h =
    rows_of-append d.time d.values d.clock d.replica t v c r h.values_length h.clock_length
      h.replica_length

module _ (fp : Arith) (cutoff span : ℕ) where
  kept_rows :
      (rs : List (ℕ × SamplePoint)) (kept : SampleData) (m : List (ℕ × SampleBucket))
      → IsRect kept
      → rows (foldl (compact_row fp cutoff span) (kept, m) rs).0 ≡ rows kept ++ recent cutoff rs
  unfolding compact_row
  kept_rows [] kept m h = sym (append-nil (rows kept))
  kept_rows ((t, p) ∷ rs) kept m h =
      let j = bucket_of t span in
      ground (
        arith,
        rows-add kept t p.value p.clock p.replica h,
        append_assoc (rows kept) ((t, p) ∷ []) (recent cutoff rs),
        kept_rows rs (add kept t p.value p.clock p.replica) m
            (add-IsRect kept t p.value p.clock p.replica h),
        kept_rows rs kept (insert j (pack fp j p.value (get_or m j zero_bucket)) m) h,
      )

  -- `Compact` keeps the points from the cutoff on, in their order, and no others.
  pub sample_rows-compact :
      (d : SampleData) → rows (compact fp d cutoff span) ≡ recent cutoff (rows d)
  unfolding compact rows rows_of
  sample_rows-compact d =
      let none_kept : SampleData = record {
        time = [];
        values = [];
        clock = [];
        replica = [];
        buckets = [];
      } in
      ground (
        arith,
        no_rows d.time d.values d.clock d.replica,
        kept_rows (rows d) none_kept
            (foldl (λ m (b : SampleBucket). insert b.time b m) [] d.buckets)
            record { values_length = refl; clock_length = refl; replica_length = refl },
      )
