-- ===== src/Times.antt =====
-- The helpers of series.go on times, and the loop of the three `minTime` methods.
pub mod Laws
use trend.Prelude.{ℕ, ◌*◌, ◌/◌, Bool, true, ◌&&◌, ◌||◌, not, List, [], ◌∷◌}
use trend.Prelude.{ltb, leb, ◌==◌, if◌then◌else◌}

unfoldable pub bucket_of : ℕ → ℕ → ℕ
bucket_of t span = if span == 0 then t else t / span * span

-- `strictlyIncreasing` and `nondecreasing` of series.go compare each entry with the one before.
unfoldable pub strictly_increasing : List ℕ → Bool
strictly_increasing [] = true
strictly_increasing (x ∷ xs) = elim xs [ [] ↦ true | y ∷ _ ↦ ltb x y ] && strictly_increasing xs

unfoldable pub nondecreasing : List ℕ → Bool
nondecreasing [] = true
nondecreasing (x ∷ xs) = elim xs [ [] ↦ true | y ∷ _ ↦ leb x y ] && nondecreasing xs

-- A round of `minTime`, on its variables `out` and `ok`.
abbrev pub min_step : ℕ × Bool → ℕ → ℕ × Bool
min_step (out, found) t = (if not found || ltb t out then t else out, true)
