-- ===== src/Sketches/Bins.antt =====
-- Bins of a sketch as maps: what they add up to, and `minKey` and `delete` on them.
use trend.Prelude.{
  ◌⊎◌, inr, ℕ, ◌+◌, ◌%◌, ◌^◌, ◌≤◌, ◌<◌, ◌≡◌, refl, arith, Bool, true, false, ◌||◌, not,
}
use trend.Prelude.{List, [], ◌∷◌, foldl, length, ltb, if◌then◌else◌}
use trend.Maps.{lookup, insert, get_or, keys, remove, mem}
use trend.Maps.Laws.{IsDistinct, insert-IsDistinct}
use trend.Counters.{add_sum}
use trend.Sketches.Value.{signed, min_key, add_entries}
use trend.Sketches.Encoded.{sum_bins}

pub sum_bins-lt : (m : List (ℕ × ℕ)) → sum_bins m < 2 ^ 64
unfolding sum_bins
sum_bins-lt [] = omega arith
sum_bins-lt ((k, n) ∷ m) = omega arith

pub sum_bins-add_sum :
    (m : List (ℕ × ℕ)) (k n : ℕ) → sum_bins (add_sum m k n) ≡ (sum_bins m + n) % 2 ^ 64
unfolding sum_bins add_sum insert lookup
sum_bins-add_sum [] k n = omega arith
sum_bins-add_sum ((j, a) ∷ m) k n = ground (arith, sum_bins-add_sum m k n)

pub sum_bins-add_entries :
    (other m : List (ℕ × ℕ))
    → sum_bins (add_entries m other) ≡ (sum_bins m + sum_bins other) % 2 ^ 64
unfolding sum_bins
sum_bins-add_entries [] m = omega (arith, sum_bins-lt m)
sum_bins-add_entries ((k, n) ∷ other) m =
    omega (arith, sum_bins-add_entries other (add_sum m k n), sum_bins-add_sum m k n)

pub add_sum-IsDistinct :
    (m : List (ℕ × ℕ)) (k n : ℕ) → IsDistinct (keys m) → IsDistinct (keys (add_sum m k n))
unfolding add_sum
add_sum-IsDistinct m k n h = insert-IsDistinct k ((get_or m k 0 + n) % 2 ^ 64) m h

pub add_entries-IsDistinct :
    (other m : List (ℕ × ℕ)) → IsDistinct (keys m) → IsDistinct (keys (add_entries m other))
add_entries-IsDistinct [] m h = h
add_entries-IsDistinct ((k, n) ∷ other) m h =
    add_entries-IsDistinct other (add_sum m k n) (add_sum-IsDistinct m k n h)

-- A key that is not there is not taken away.
remove_none : (m : List (ℕ × ℕ)) (k : ℕ) → mem k (keys m) ≡ false → remove k m ≡ m
unfolding remove
remove_none [] k h = refl
remove_none ((j, n) ∷ m) k h = ground (arith, h, remove_none m k)

pub sum_bins-remove :
    (m : List (ℕ × ℕ)) (k : ℕ)
    → IsDistinct (keys m)
    → (get_or m k 0 + sum_bins (remove k m)) % 2 ^ 64 ≡ sum_bins m
unfolding sum_bins remove lookup
sum_bins-remove [] k h = refl
sum_bins-remove ((j, n) ∷ m) k (p, h) = ground (arith, p, sum_bins-remove m k h, remove_none m k)

pub length-remove-le : (m : List (ℕ × ℕ)) (k : ℕ) → length (remove k m) ≤ length m
unfolding remove
length-remove-le [] k = omega arith
length-remove-le ((j, n) ∷ m) k = ground (arith, length-remove-le m k)

pub length-remove-lt :
    (m : List (ℕ × ℕ)) (k : ℕ) → mem k (keys m) ≡ true → length (remove k m) < length m
unfolding remove
length-remove-lt [] k h = ground (arith, h)
length-remove-lt ((j, n) ∷ m) k h = ground (arith, h, length-remove-lt m k, length-remove-le m k)

mem-remove :
    (m : List (ℕ × ℕ)) (j k : ℕ) → mem j (keys m) ≡ false → mem j (keys (remove k m)) ≡ false
unfolding remove
mem-remove [] j k h = refl
mem-remove ((i, n) ∷ m) j k h = ground (arith, h, mem-remove m j k)

pub remove-IsDistinct :
    (m : List (ℕ × ℕ)) (k : ℕ) → IsDistinct (keys m) → IsDistinct (keys (remove k m))
unfolding remove
remove-IsDistinct [] k h = tt
remove-IsDistinct ((j, n) ∷ m) k (p, h) =
    ground (arith, p, remove-IsDistinct m k h, mem-remove m j k p)

-- A round of `minKey`.
abbrev smaller : ℕ × Bool → ℕ → ℕ × Bool
smaller s k = if not s.1 || ltb (signed k) (signed s.0) then (k, true) else s

min_loop :
    (ks : List ℕ) (s : ℕ × Bool)
    → s.1 ≡ true
    → ((foldl smaller s ks).1 ≡ true)
      × ((mem (foldl smaller s ks).0 ks ≡ true) ⊎ ((foldl smaller s ks).0 ≡ s.0))
min_loop [] s h = (h, inr refl)
min_loop (k ∷ ks) s h = ground (arith, h, min_loop ks (smaller s k))

pub min_key-mem :
    (m : List (ℕ × ℕ)) → 0 < length m → ((min_key m).1 ≡ true) × (mem (min_key m).0 (keys m) ≡ true)
unfolding min_key
min_key-mem [] h = absurd (omega arith)
min_key-mem ((k, n) ∷ m) h = ground (arith, min_loop (keys m) (k, true))

pub min_key-none : (m : List (ℕ × ℕ)) → length m ≡ 0 → (min_key m).1 ≡ false
unfolding min_key
min_key-none [] h = refl
min_key-none (e ∷ m) h = absurd (omega arith)
