-- ===== src/Agg/Laws.antt =====
-- Laws of `fold` of agg.go, fed with values and with buckets.
use trend.Prelude.{
  ℕ, ◌+◌, ◌^◌, ◌≤◌, ◌<◌, ◌≡◌, ◌≢◌, refl, sym, ap, ◌∙◌, arith, Bool, true, false, ◌⊎◌, inl, inr,
}
use trend.Prelude.{
  List, [], ◌∷◌, ◌++◌, append-nil, append_assoc, foldl, length, length-append, if◌then◌else◌, All,
}
use trend.Float.{Float64, Arith, is_nan, rank, less, zero_float}
use trend.Data.{SampleBucket}
use trend.Agg.{Fold, empty_fold, add, merge}

abbrev pub Member : Float64 → List Float64 → Type 0
Member x [] = ⊥
Member x (v ∷ vs) = (x ≡ v) ⊎ Member x vs

abbrev pub last_value : Float64 → List Float64 → Float64
last_value x [] = x
last_value x (v ∷ vs) = last_value v vs

abbrev pub first_value : Float64 → List Float64 → Float64
first_value x [] = x
first_value x (v ∷ vs) = v

-- The count, extremes and ends of values that are not NaN; `rank` is the order of `<`.
pub record IsSummary (vs : List Float64) (count : ℕ) (min max first last : Float64) : Type 0 where
  pub counted : count ≡ length vs
  pub min_number : is_nan min ≡ false
  pub max_number : is_nan max ≡ false
  pub min_member : Member min vs
  pub max_member : Member max vs
  pub lower : All (λ v. rank min ≤ rank v) vs
  pub upper : All (λ v. rank v ≤ rank max) vs
  pub first_of : first ≡ first_value zero_float vs
  pub last_of : last ≡ last_value zero_float vs

Member-left : (x : Float64) (vs ws : List Float64) → Member x vs → Member x (vs ++ ws)
Member-left x [] ws p = absurd p
Member-left x (v ∷ vs) ws (inl p) = inl p
Member-left x (v ∷ vs) ws (inr p) = inr (Member-left x vs ws p)

Member-right : (x : Float64) (vs ws : List Float64) → Member x ws → Member x (vs ++ ws)
Member-right x [] ws p = p
Member-right x (v ∷ vs) ws p = inr (Member-right x vs ws p)

below : (a b : ℕ) (vs : List Float64) → a ≤ b → All (λ v. b ≤ rank v) vs → All (λ v. a ≤ rank v) vs
below a b [] h p = tt
below a b (v ∷ vs) h (p, q) = (omega (arith, h, p), below a b vs h q)

above : (a b : ℕ) (vs : List Float64) → b ≤ a → All (λ v. rank v ≤ b) vs → All (λ v. rank v ≤ a) vs
above a b [] h p = tt
above a b (v ∷ vs) h (p, q) = (omega (arith, h, p), above a b vs h q)

All-append : (P : Float64 → Type 0) (vs ws : List Float64) → All P vs → All P ws → All P (vs ++ ws)
All-append P [] ws p q = q
All-append P (v ∷ vs) ws (h, p) q = (h, All-append P vs ws p q)

pub last_value-append :
    (x w : Float64) (vs ws : List Float64) → last_value x (vs ++ (w ∷ ws)) ≡ last_value w ws
last_value-append x w [] ws = refl
last_value-append x w (v ∷ vs) ws = last_value-append v w vs ws

-- The smaller and the larger of two numbers.
abbrev pub smaller : Float64 → Float64 → Float64
smaller a b = if less b a then b else a

abbrev pub larger : Float64 → Float64 → Float64
larger a b = if less a b then b else a

smaller_lem :
    (a b : Float64)
    → is_nan a ≡ false
    → is_nan b ≡ false
    → (rank (smaller a b) ≤ rank a) × (rank (smaller a b) ≤ rank b) × (is_nan (smaller a b) ≡ false)
unfolding less
smaller_lem a b p q = ground (arith, p, q)

larger_lem :
    (a b : Float64)
    → is_nan a ≡ false
    → is_nan b ≡ false
    → (rank a ≤ rank (larger a b)) × (rank b ≤ rank (larger a b)) × (is_nan (larger a b) ≡ false)
unfolding less
larger_lem a b p q = ground (arith, p, q)

Member-pick :
    (c : Bool) (a b : Float64) (vs ws : List Float64)
    → Member a vs
    → Member b ws
    → Member (if c then b else a) (vs ++ ws)
Member-pick true a b vs ws p q = Member-right b vs ws q
Member-pick false a b vs ws p q = Member-left a vs ws p

-- Two summaries give that of the values side by side.
pub IsSummary-append :
    (v w : Float64) (vs ws : List Float64) (n m : ℕ)
    {min max first last min' max' first' last' : Float64}
    → IsSummary (v ∷ vs) n min max first last
    → IsSummary (w ∷ ws) m min' max' first' last'
    → IsSummary ((v ∷ vs) ++ (w ∷ ws)) (n + m) (smaller min min') (larger max max') first last'
IsSummary-append v w vs ws n m {min} {max} {first} {last} {min'} {max'} {first'} {last'} p q =
    let (la, lb, ln) = smaller_lem min min' p.min_number q.min_number in
    let (ua, ub, un) = larger_lem max max' p.max_number q.max_number in
    record {
      counted = omega (arith, p.counted, q.counted, length-append (v ∷ vs) (w ∷ ws));
      min_number = ln;
      max_number = un;
      min_member = Member-pick (less min' min) min min' (v ∷ vs) (w ∷ ws) p.min_member q.min_member;
      max_member = Member-pick (less max max') max max' (v ∷ vs) (w ∷ ws) p.max_member q.max_member;
      lower =
          All-append _ (v ∷ vs) (w ∷ ws) (below _ _ (v ∷ vs) la p.lower)
            (below _ _ (w ∷ ws) lb q.lower);
      upper =
          All-append _ (v ∷ vs) (w ∷ ws) (above _ _ (v ∷ vs) ua p.upper)
            (above _ _ (w ∷ ws) ub q.upper);
      first_of = p.first_of;
      last_of = q.last_of ∙ sym (last_value-append zero_float w (v ∷ vs) ws);
    }

single : (v : Float64) → is_nan v ≡ false → IsSummary (v ∷ []) 1 v v v v
single v h = record {
  counted = refl;
  min_number = h;
  max_number = h;
  min_member = inl refl;
  max_member = inl refl;
  lower = (omega arith, tt);
  upper = (omega arith, tt);
  first_of = refl;
  last_of = refl;
}

-- The fold of some values, which is empty where there are none.
abbrev pub IsFoldOf : List Float64 → Fold → Type 0
IsFoldOf [] f = f.count ≡ 0
IsFoldOf (v ∷ vs) f = IsSummary (v ∷ vs) f.count f.min f.max f.first f.last

abbrev pub IsBucketOf : List Float64 → SampleBucket → Type 0
IsBucketOf [] b = ⊥
IsBucketOf (v ∷ vs) b = IsSummary (v ∷ vs) b.count b.min b.max b.first b.last

-- What a range read gives a fold: raw values and buckets.
pub data Piece : Type 0 where
  raw : Float64 → Piece
  packed : SampleBucket → Piece

-- `IsPieces ps vss`: a raw piece is a number, and a bucket sums up the values at its place.
abbrev pub IsPieces : List Piece → List (List Float64) → Type 0
IsPieces [] [] = Unit
IsPieces (raw v ∷ ps) (vs ∷ vss) = (vs ≡ v ∷ []) × (is_nan v ≡ false) × IsPieces ps vss
IsPieces (packed b ∷ ps) (vs ∷ vss) = IsBucketOf vs b × IsPieces ps vss
IsPieces _ _ = ⊥

abbrev pub join_values : List (List Float64) → List Float64
join_values [] = []
join_values (vs ∷ vss) = vs ++ join_values vss

module _ (fp : Arith) where
  abbrev pub collect : Fold → Piece → Fold
  collect f (raw v) = add fp f v
  collect f (packed b) = merge fp f b

  merge_first :
      (f : Fold) (b : SampleBucket)
      → f.count ≡ 0
      → b.count ≢ 0
      → b.count < 2 ^ 64
      → ((merge fp f b).count ≡ b.count)
        × ((merge fp f b).min ≡ b.min)
        × ((merge fp f b).max ≡ b.max)
        × ((merge fp f b).first ≡ b.first)
        × ((merge fp f b).last ≡ b.last)
  unfolding merge
  merge_first f b h k l = ground (arith, h, k, l)

  merge_next :
      (f : Fold) (b : SampleBucket)
      → f.count ≢ 0
      → b.count ≢ 0
      → f.count + b.count < 2 ^ 64
      → ((merge fp f b).count ≡ f.count + b.count)
        × ((merge fp f b).min ≡ smaller f.min b.min)
        × ((merge fp f b).max ≡ larger f.max b.max)
        × ((merge fp f b).first ≡ f.first)
        × ((merge fp f b).last ≡ b.last)
  unfolding merge
  merge_next f b h k l = ground (arith, h, k, l)

  pub merge-IsFoldOf :
      (vs ws : List Float64) (f : Fold) (b : SampleBucket)
      → IsFoldOf vs f
      → IsBucketOf ws b
      → length vs + length ws < 2 ^ 64
      → IsFoldOf (vs ++ ws) (merge fp f b)
  merge-IsFoldOf vs [] f b p q h = absurd q
  merge-IsFoldOf [] (w ∷ ws) f b p q h =
      let (n, l, u, a, z) =
        merge_first f b p (omega (arith, q.counted)) (omega (arith, q.counted)) in
      rw (n, l, u, a, z) q
  merge-IsFoldOf (v ∷ vs) (w ∷ ws) f b p q h =
      let (n, l, u, a, z) =
        merge_next f b (omega (arith, p.counted)) (omega (arith, q.counted))
          (omega (arith, p.counted, q.counted)) in
      rw (n, l, u, a, z) (IsSummary-append v w vs ws f.count b.count p q)

  -- A value is a bucket of one.
  abbrev one : Float64 → SampleBucket
  one v = record { time = 0; count = 1; sum = v; min = v; max = v; first = v; last = v }

  add-merge : (f : Fold) (v : Float64) → add fp f v ≡ merge fp f (one v)
  unfolding add merge
  add-merge f v = refl

  collect-IsFoldOf :
      (ps : List Piece) (vss : List (List Float64)) (vs : List Float64) (f : Fold)
      → IsFoldOf vs f
      → IsPieces ps vss
      → length vs + length (join_values vss) < 2 ^ 64
      → IsFoldOf (vs ++ join_values vss) (foldl collect f ps)
  collect-IsFoldOf [] [] vs f p q h = rw append-nil p
  collect-IsFoldOf [] (ws ∷ vss) vs f p q h = absurd q
  collect-IsFoldOf (raw v ∷ ps) [] vs f p q h = absurd q
  collect-IsFoldOf (packed b ∷ ps) [] vs f p q h = absurd q
  collect-IsFoldOf (raw v ∷ ps) (ws ∷ vss) vs f p (e, n, q) h =
      let k = length-append ws (join_values vss) in
      let l = length-append vs (v ∷ []) in
      let w : length ws ≡ 1 = ap length e in
      rw (e, ← append_assoc vs (v ∷ []) (join_values vss))
        (collect-IsFoldOf ps vss (vs ++ (v ∷ [])) (add fp f v)
          (rw (add-merge f v)
            (merge-IsFoldOf vs (v ∷ []) f (one v) p (single v n) (omega (arith, h, k, w))))
          q (omega (arith, h, k, l, w)))
  collect-IsFoldOf (packed b ∷ ps) (ws ∷ vss) vs f p (u, q) h =
      let k = length-append ws (join_values vss) in
      let l = length-append vs ws in
      rw (← append_assoc vs ws (join_values vss)) (
        collect-IsFoldOf ps vss (vs ++ ws) (merge fp f b)
          (merge-IsFoldOf vs ws f b p u (omega (arith, h, k))) q (omega (arith, h, k, l)))

  -- A fold of fewer than 2 ^ 64 values, none of them NaN, has their number, extremes, first and last
  -- value, whichever of them it got one by one and whichever through buckets that have those of
  -- their own values.
  pub collect_lem :
      (ps : List Piece) (vss : List (List Float64))
      → IsPieces ps vss
      → length (join_values vss) < 2 ^ 64
      → IsFoldOf (join_values vss) (foldl collect empty_fold ps)
  collect_lem ps vss q h = collect-IsFoldOf ps vss [] empty_fold refl q (omega (arith, h))
