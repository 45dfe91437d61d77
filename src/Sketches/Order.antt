-- ===== src/Sketches/Order.antt =====
-- sortedIntKeys of sketch_state.go: the bins of a sketch in the order of their keys.
use trend.Prelude.{ℕ, suc, ◌+◌, ◌%◌, ◌^◌, ◌≡◌, refl, sym, ap, ◌∙◌, arith, true, false, ◌||◌}
use trend.Prelude.{List, [], ◌∷◌, map, length, length-map, ◌==◌, All}
use trend.Maps.{lookup, get_or, keys, mem}
use trend.Maps.Laws.{IsDistinct, mem-keys, lookup-entries, keys-entries}
use trend.Sketches.Encoded.{insert_int, sort_ints, sorted_int_keys, sum_bins}
use trend.Sketches.Bytes.{IsBin, sorted_bins}

mem-insert_int : (t x : ℕ) (xs : List ℕ) → mem t (insert_int x xs) ≡ ((x == t) || mem t xs)
unfolding insert_int
mem-insert_int t x [] = refl
mem-insert_int t x (y ∷ ys) = ground (arith, mem-insert_int t x ys)

mem-sort_ints : (t : ℕ) (xs : List ℕ) → mem t (sort_ints xs) ≡ mem t xs
unfolding sort_ints
mem-sort_ints t [] = refl
mem-sort_ints t (x ∷ xs) = ground (arith, mem-insert_int t x (sort_ints xs), mem-sort_ints t xs)

insert_int-IsDistinct :
    (x : ℕ) (xs : List ℕ) → mem x xs ≡ false → IsDistinct xs → IsDistinct (insert_int x xs)
unfolding insert_int
insert_int-IsDistinct x [] p h = (p, h)
insert_int-IsDistinct x (y ∷ ys) p (q, h) =
    ground (arith, p, q, h, insert_int-IsDistinct x ys, mem-insert_int y x ys)

sort_ints-IsDistinct : (xs : List ℕ) → IsDistinct xs → IsDistinct (sort_ints xs)
unfolding sort_ints
sort_ints-IsDistinct [] h = h
sort_ints-IsDistinct (x ∷ xs) (p, h) =
    insert_int-IsDistinct x (sort_ints xs) (mem-sort_ints x xs ∙ p) (sort_ints-IsDistinct xs h)

length-insert_int : (x : ℕ) (xs : List ℕ) → length (insert_int x xs) ≡ suc (length xs)
unfolding insert_int
length-insert_int x [] = refl
length-insert_int x (y ∷ ys) = ground (arith, length-insert_int x ys)

length-sort_ints : (xs : List ℕ) → length (sort_ints xs) ≡ length xs
unfolding sort_ints
length-sort_ints [] = refl
length-sort_ints (x ∷ xs) = length-insert_int x (sort_ints xs) ∙ ap suc (length-sort_ints xs)

-- What amounts add up to does not depend on the order.
abbrev sum_at : (ℕ → ℕ) → List ℕ → ℕ
sum_at f ks = sum_bins (map (λ k. (k, f k)) ks)

sum_at-insert_int :
    (f : ℕ → ℕ) (x : ℕ) (xs : List ℕ) → sum_at f (insert_int x xs) ≡ (f x + sum_at f xs) % 2 ^ 64
unfolding insert_int sum_bins
sum_at-insert_int f x [] = refl
sum_at-insert_int f x (y ∷ ys) = ground (arith, sum_at-insert_int f x ys)

sum_at-sort_ints : (f : ℕ → ℕ) (xs : List ℕ) → sum_at f (sort_ints xs) ≡ sum_at f xs
unfolding sort_ints sum_bins
sum_at-sort_ints f [] = refl
sum_at-sort_ints f (x ∷ xs) =
    omega (arith, sum_at-insert_int f x (sort_ints xs), sum_at-sort_ints f xs)

-- Amounts that agree on the keys.
sum_at-keys :
    (f : ℕ → ℕ) (m : List (ℕ × ℕ)) → All (λ e. f e.0 ≡ e.1) m → sum_at f (keys m) ≡ sum_bins m
unfolding sum_bins
sum_at-keys f [] h = refl
sum_at-keys f ((k, n) ∷ m) (p, h) = omega (arith, p, sum_at-keys f m h)

-- A new first key does not hide what comes behind it.
get_or_behind :
    (k n : ℕ) (m es : List (ℕ × ℕ))
    → mem k (keys es) ≡ false
    → All (λ e. get_or m e.0 0 ≡ e.1) es
    → All (λ e. get_or ((k, n) ∷ m) e.0 0 ≡ e.1) es
unfolding lookup
get_or_behind k n m [] p h = tt
get_or_behind k n m ((j, a) ∷ es) p (q, h) =
    (ground (arith, p, q), get_or_behind k n m es (ground (arith, p)) h)

-- The entries of a map are what is looked up.
get_or-entries : (m : List (ℕ × ℕ)) → IsDistinct (keys m) → All (λ e. get_or m e.0 0 ≡ e.1) m
unfolding lookup
get_or-entries [] h = tt
get_or-entries ((k, n) ∷ m) (p, h) = (ground arith, get_or_behind k n m m p (get_or-entries m h))

pub sum_bins-sorted_bins :
    (m : List (ℕ × ℕ)) → IsDistinct (keys m) → sum_bins (sorted_bins m) ≡ sum_bins m
unfolding sorted_int_keys
sum_bins-sorted_bins m h =
    sum_at-sort_ints (λ k. get_or m k 0) (keys m)
    ∙ sum_at-keys (λ k. get_or m k 0) m (get_or-entries m h)

pub length-sorted_bins : (m : List (ℕ × ℕ)) → length (sorted_bins m) ≡ length m
unfolding sorted_int_keys
length-sorted_bins m =
    length-map {B = ℕ × ℕ} (λ (k : ℕ). (k, get_or m k 0)) (sort_ints (keys m))
    ∙ length-sort_ints (keys m)
    ∙ length-map {B = ℕ} (λ (e : ℕ × ℕ). e.0) m

pub sorted_bins-IsDistinct :
    (m : List (ℕ × ℕ)) → IsDistinct (keys m) → IsDistinct (keys (sorted_bins m))
unfolding sorted_int_keys
sorted_bins-IsDistinct m h =
    rw (keys-entries (λ k. get_or m k 0) (sort_ints (keys m))) (sort_ints-IsDistinct (keys m) h)

-- The order changes nothing that is looked up.
pub lookup-sorted_bins : (t : ℕ) (m : List (ℕ × ℕ)) → lookup t (sorted_bins m) ≡ lookup t m
unfolding sorted_int_keys
lookup-sorted_bins t m =
    lookup-entries (λ k. get_or m k 0) t (sort_ints (keys m))
    ∙ ground (arith, mem-sort_ints t (keys m), mem-keys t m)

get_or-IsBin :
    (m : List (ℕ × ℕ)) (k : ℕ) → All IsBin m → mem k (keys m) ≡ true → IsBin (k, get_or m k 0)
unfolding lookup
get_or-IsBin [] k h p = absurd (ground (arith, p))
get_or-IsBin ((j, n) ∷ m) k (b, h) p =
    let rest : mem k (keys m) ≡ true → IsBin (k, get_or m k 0) = get_or-IsBin m k h in
    let here : (j ≡ k) → IsBin (k, n) = λ e. rw (← e) b in ground (arith, p, here, rest)

All-map-mem :
    (P : ℕ × ℕ → Type 0) (f : ℕ → ℕ × ℕ) (ks : List ℕ)
    → ((k : ℕ) → mem k ks ≡ true → P (f k))
    → All P (map f ks)
All-map-mem P f [] h = tt
All-map-mem P f (k ∷ ks) h =
    (h k (ground arith), All-map-mem P f ks (λ j e. h j (ground (arith, e))))

pub sorted_bins-IsBin : (m : List (ℕ × ℕ)) → All IsBin m → All IsBin (sorted_bins m)
unfolding sorted_int_keys
sorted_bins-IsBin m h =
    All-map-mem IsBin (λ k. (k, get_or m k 0)) (sort_ints (keys m))
      (λ k e. get_or-IsBin m k h (sym (mem-sort_ints k (keys m)) ∙ e))
