-- ===== src/Maps/Laws.antt =====
-- The laws of the maps: reads after writes, distinct keys, and the sorted keys.
use trend.Prelude.{ℕ, ◌<◌, ◌≡◌, refl, ap, ap₂, ◌∙◌, arith, Bool, true, false, ◌||◌}
use trend.Prelude.{Option, none, some, List, [], ◌∷◌, map, ◌==◌, if◌then◌else◌, All}
use trend.Maps.{lookup, insert, keys, get_or, insert_sorted, sort, sorted_times, mem, IsIncreasing}

abbrev pub is_some {ℓ} : {A : Type ℓ} → Option A → Bool
is_some none = false
is_some (some _) = true

module _ {ℓ} {V : Type ℓ} where
  pub lookup-insert :
      (t k : ℕ) (v : V) (m : List (ℕ × V))
      → lookup t (insert k v m) ≡ (if k == t then some v else lookup t m)
  unfolding lookup insert
  lookup-insert t k v [] = refl
  lookup-insert t k v ((j, w) ∷ m) = ground (arith, lookup-insert t k v m)

  pub mem-keys : (t : ℕ) (m : List (ℕ × V)) → mem t (keys m) ≡ is_some (lookup t m)
  unfolding lookup
  mem-keys t [] = refl
  mem-keys t ((k, v) ∷ m) = ground (arith, mem-keys t m)

-- No value stands twice.
abbrev pub IsDistinct : List ℕ → Type 0
IsDistinct [] = Unit
IsDistinct (x ∷ xs) = (mem x xs ≡ false) × IsDistinct xs

module _ {ℓ} {V : Type ℓ} where
  mem-insert :
      (t k : ℕ) (v : V) (m : List (ℕ × V))
      → mem t (keys (insert k v m)) ≡ ((k == t) || mem t (keys m))
  unfolding insert
  mem-insert t k v [] = refl
  mem-insert t k v ((j, w) ∷ m) = ground (arith, mem-insert t k v m)

  pub insert-IsDistinct :
      (k : ℕ) (v : V) (m : List (ℕ × V)) → IsDistinct (keys m) → IsDistinct (keys (insert k v m))
  unfolding insert
  insert-IsDistinct k v [] h = (refl, tt)
  insert-IsDistinct k v ((j, w) ∷ m) (p, h) =
      ground (arith, insert-IsDistinct k v m h, mem-insert j k v m)

mem-insert_sorted : (t x : ℕ) (xs : List ℕ) → mem t (insert_sorted x xs) ≡ ((x == t) || mem t xs)
unfolding insert_sorted
mem-insert_sorted t x [] = refl
mem-insert_sorted t x (y ∷ ys) = ground (arith, mem-insert_sorted t x ys)

pub mem-sort : (t : ℕ) (xs : List ℕ) → mem t (sort xs) ≡ mem t xs
unfolding sort
mem-sort t [] = refl
mem-sort t (x ∷ xs) = ground (arith, mem-insert_sorted t x (sort xs), mem-sort t xs)

All-insert_sorted :
    (a x : ℕ) (xs : List ℕ) → a < x → All (λ y. a < y) xs → All (λ y. a < y) (insert_sorted x xs)
unfolding insert_sorted
All-insert_sorted a x [] p h = (p, tt)
All-insert_sorted a x (y ∷ ys) p (q, h) = ground (arith, All-insert_sorted a x ys p h)

All-lt_trans : (a b : ℕ) (xs : List ℕ) → a < b → All (λ y. b < y) xs → All (λ y. a < y) xs
All-lt_trans a b [] p h = tt
All-lt_trans a b (x ∷ xs) p (q, h) = (omega arith, All-lt_trans a b xs p h)

insert_sorted-IsIncreasing :
    (x : ℕ) (xs : List ℕ) → mem x xs ≡ false → IsIncreasing xs → IsIncreasing (insert_sorted x xs)
unfolding insert_sorted
insert_sorted-IsIncreasing x [] p h = (tt, tt)
insert_sorted-IsIncreasing x (y ∷ ys) p (q, h) =
    ground (arith, insert_sorted-IsIncreasing x ys, All-insert_sorted y x ys, All-lt_trans x y ys)

pub sort-IsIncreasing : (xs : List ℕ) → IsDistinct xs → IsIncreasing (sort xs)
unfolding sort
sort-IsIncreasing [] h = tt
sort-IsIncreasing (x ∷ xs) (p, h) =
    insert_sorted-IsIncreasing x (sort xs) (mem-sort x xs ∙ p) (sort-IsIncreasing xs h)

module _ {ℓ} {V : Type ℓ} where
  pub sorted_times-IsIncreasing :
      (m : List (ℕ × V)) → IsDistinct (keys m) → IsIncreasing (sorted_times m)
  unfolding sorted_times
  sorted_times-IsIncreasing m h = sort-IsIncreasing (keys m) h

  pub mem-sorted_times : (t : ℕ) (m : List (ℕ × V)) → mem t (sorted_times m) ≡ is_some (lookup t m)
  unfolding sorted_times
  mem-sorted_times t m = mem-sort t (keys m) ∙ mem-keys t m

  -- The entries of a map in the order of its keys, with `zero_value` never used.
  abbrev pub entries : V → List (ℕ × V) → List ℕ → List (ℕ × V)
  entries zero_value m ts = map (λ t. (t, get_or m t zero_value)) ts

  pub lookup-entries :
      (f : ℕ → V) (t : ℕ) (ts : List ℕ)
      → lookup t (map (λ x. (x, f x)) ts) ≡ (if mem t ts then some (f t) else none)
  unfolding lookup
  lookup-entries f t [] = refl
  lookup-entries f t (x ∷ xs) = ground (arith, lookup-entries f t xs)

  -- Reading the sorted entries of a map is reading the map.
  pub lookup-sorted_entries :
      (z : V) (t : ℕ) (m : List (ℕ × V)) → lookup t (entries z m (sorted_times m)) ≡ lookup t m
  lookup-sorted_entries z t m =
      lookup-entries (λ x. get_or m x z) t (sorted_times m) ∙ ground (arith, mem-sorted_times t m)

module _ {V : Type 0} where
  pub lookup_above : (t : ℕ) (m : List (ℕ × V)) → All (λ y. t < y) (keys m) → lookup t m ≡ none
  unfolding lookup
  lookup_above t [] h = refl
  lookup_above t ((k, v) ∷ m) (p, h) = ground (arith, lookup_above t m h)

  module _ (k j : ℕ) (v w : V) (a b : List (ℕ × V)) (p : IsIncreasing (keys ((k, v) ∷ a)))
      (q : IsIncreasing (keys ((j, w) ∷ b)))
      (h : (t : ℕ) → lookup t ((k, v) ∷ a) ≡ lookup t ((j, w) ∷ b)) where
    same_head : (k ≡ j) × (v ≡ w)
    unfolding lookup
    same_head = ground (
      arith,
      h k,
      h j,
      lookup_above k b,
      lookup_above j a,
      All-lt_trans k j (keys b),
      All-lt_trans j k (keys a),
      p,
      q,
    )

    same_tail : (t : ℕ) → lookup t a ≡ lookup t b
    unfolding lookup
    same_tail t = ground (arith, h t, same_head, lookup_above k a, lookup_above k b, p, q)

  -- Two lists in the order of their keys that read alike are equal.
  pub eq_of_lookup :
      (a b : List (ℕ × V))
      → IsIncreasing (keys a)
      → IsIncreasing (keys b)
      → ((t : ℕ) → lookup t a ≡ lookup t b)
      → a ≡ b
  eq_of_lookup [] [] p q h = refl
  eq_of_lookup [] ((j, w) ∷ b) p q h = unfold lookup in ground (arith, h j)
  eq_of_lookup ((k, v) ∷ a) [] p q h = unfold lookup in ground (arith, h k)
  eq_of_lookup ((k, v) ∷ a) ((j, w) ∷ b) p q h =
      let same = same_head k j v w a b p q h in
      ap₂ ◌∷◌ (λ i. (same.0 i, same.1 i)) (eq_of_lookup a b p.1 q.1 (same_tail k j v w a b p q h))

  pub keys-entries : (f : ℕ → V) (ts : List ℕ) → keys (map (λ x. (x, f x)) ts) ≡ ts
  keys-entries f [] = refl
  keys-entries f (x ∷ xs) = ap (λ ys. x ∷ ys) (keys-entries f xs)
