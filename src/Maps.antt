-- ===== src/Maps.antt =====
-- Go maps with uint64 keys as association lists, and `sortedTimes` of series.go. An insertion keeps
-- the place of a key that is there. The order of a list stands for the order of `range`, which Go
-- leaves open.
pub mod Laws
use trend.Prelude.{ℕ, ◌<◌, Bool, false, ◌||◌, Option, none, some, List, [], ◌∷◌, map}
use trend.Prelude.{leb, ◌==◌, if◌then◌else◌, All}

module _ {ℓ} {V : Type ℓ} where
  unfoldable pub lookup : ℕ → List (ℕ × V) → Option V
  lookup t [] = none
  lookup t ((k, v) ∷ m) = if k == t then some v else lookup t m

  unfoldable pub insert : ℕ → V → List (ℕ × V) → List (ℕ × V)
  insert t v [] = (t, v) ∷ []
  insert t v ((k, w) ∷ m) = if k == t then (k, v) ∷ m else (k, w) ∷ insert t v m

  -- `delete(m, t)`.
  unfoldable pub remove : ℕ → List (ℕ × V) → List (ℕ × V)
  remove t [] = []
  remove t ((k, v) ∷ m) = if k == t then remove t m else (k, v) ∷ remove t m

  -- `m[t]`, with the zero value where the key is missing.
  abbrev pub get_or : List (ℕ × V) → ℕ → V → V
  get_or m t zero_value = elim (lookup t m) [ none ↦ zero_value | some v ↦ v ]

  abbrev pub keys : List (ℕ × V) → List ℕ
  keys m = map (λ e. e.0) m

-- slices.Sort on uint64 values.
unfoldable pub insert_sorted : ℕ → List ℕ → List ℕ
insert_sorted x [] = x ∷ []
insert_sorted x (y ∷ ys) = if leb x y then x ∷ (y ∷ ys) else y ∷ insert_sorted x ys

unfoldable pub sort : List ℕ → List ℕ
unfolding insert_sorted
sort [] = []
sort (x ∷ xs) = insert_sorted x (sort xs)

unfoldable pub sorted_times {ℓ} : {V : Type ℓ} → List (ℕ × V) → List ℕ
unfolding sort
sorted_times m = sort (keys m)

abbrev pub mem : ℕ → List ℕ → Bool
mem t [] = false
mem t (x ∷ xs) = (x == t) || mem t xs

-- Every entry is larger than those before it.
abbrev pub IsIncreasing : List ℕ → Type 0
IsIncreasing [] = Unit
IsIncreasing (x ∷ xs) = All (λ y. x < y) xs × IsIncreasing xs
