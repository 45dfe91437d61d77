-- ===== src/Times/Laws.antt =====
-- Laws of the order tests of series.go, and of columns that are filled time by time.
use trend.Prelude.{ℕ, ◌≤◌, ◌<◌, ◌≡◌, refl, arith, true}
use trend.Prelude.{List, [], ◌∷◌, ◌++◌, foldl, All}
use trend.Times.{strictly_increasing, nondecreasing}
use trend.Maps.{IsIncreasing}

pub strictly_increasing_lem : (ts : List ℕ) → IsIncreasing ts → strictly_increasing ts ≡ true
unfolding strictly_increasing
strictly_increasing_lem [] h = refl
strictly_increasing_lem (x ∷ []) h = refl
strictly_increasing_lem (x ∷ (y ∷ ys)) ((p, q), h) =
    ground (arith, p, strictly_increasing_lem (y ∷ ys) h)

-- A column in order that `t` may follow.
pub record IsBelow (t : ℕ) (ts : List ℕ) : Type 0 where
  pub ordered : nondecreasing ts ≡ true
  pub bounded : All (λ y. y ≤ t) ts

nondecreasing-snoc :
    (t : ℕ) (ts : List ℕ)
    → nondecreasing ts ≡ true
    → All (λ y. y ≤ t) ts
    → nondecreasing (ts ++ (t ∷ [])) ≡ true
unfolding nondecreasing
nondecreasing-snoc t [] h b = refl
nondecreasing-snoc t (x ∷ []) h (p, b) = ground (arith, p)
nondecreasing-snoc t (x ∷ (y ∷ ys)) h (p, b) = ground (arith, h, nondecreasing-snoc t (y ∷ ys))

bounded-snoc : (t : ℕ) (ts : List ℕ) → All (λ y. y ≤ t) ts → All (λ y. y ≤ t) (ts ++ (t ∷ []))
bounded-snoc t [] h = (omega arith, tt)
bounded-snoc t (x ∷ xs) (p, h) = (p, bounded-snoc t xs h)

pub IsBelow-snoc : (t : ℕ) (ts : List ℕ) → IsBelow t ts → IsBelow t (ts ++ (t ∷ []))
IsBelow-snoc t ts h = record {
  ordered = nondecreasing-snoc t ts h.ordered h.bounded;
  bounded = bounded-snoc t ts h.bounded;
}

weaken : (t u : ℕ) (ts : List ℕ) → t ≤ u → All (λ y. y ≤ t) ts → All (λ y. y ≤ u) ts
weaken t u [] p h = tt
weaken t u (x ∷ xs) p (q, h) = (omega (arith, p, q), weaken t u xs p h)

-- Pushes of a state, each of which puts its time behind the column `time`.
module _ {D X : Type 0} (time : D → List ℕ) (push : ℕ → D → X → D)
    (pushes : (t : ℕ) (d : D) (x : X) → time (push t d x) ≡ time d ++ (t ∷ [])) where
  block-IsBelow :
      (t : ℕ) (xs : List X) (d : D) → IsBelow t (time d) → IsBelow t (time (foldl (push t) d xs))
  block-IsBelow t [] d h = h
  block-IsBelow t (x ∷ xs) d h =
      block-IsBelow t xs (push t d x) (rw (pushes t d x) (IsBelow-snoc t (time d) h))

  pub blocks_ordered :
      (items : ℕ → List X) (ts : List ℕ) (d : D)
      → IsIncreasing ts
      → nondecreasing (time d) ≡ true
      → All (λ t. All (λ y. y ≤ t) (time d)) ts
      → nondecreasing (time (foldl (λ e t. foldl (push t) e (items t)) d ts)) ≡ true
  blocks_ordered items [] d i h b = h
  blocks_ordered items (t ∷ ts) d (p, i) h (q, b) =
      let next = foldl (push t) d (items t) in
      let below = block-IsBelow t (items t) d (record { ordered = h; bounded = q }) in
      blocks_ordered items ts next i below.ordered (later t (time next) ts below.bounded p)
    where
      later :
          (t : ℕ) (xs ts : List ℕ)
          → All (λ y. y ≤ t) xs
          → All (λ u. t < u) ts
          → All (λ u. All (λ y. y ≤ u) xs) ts
      later t xs [] h q = tt
      later t xs (u ∷ ts) h (p, q) = (weaken t u xs (omega (arith, p)) h, later t xs ts h q)

-- The bound that an empty column meets.
pub none_above : (ts : List ℕ) → All (λ t. All (λ y. y ≤ t) []) ts
none_above [] = tt
none_above (t ∷ ts) = (tt, none_above ts)
