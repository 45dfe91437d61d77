-- ===== src/Reads/RawExtremes.antt =====
-- The extremes that `sketchRawRange` of sketches.go keeps of its values, by Go's min and max.
use trend.Prelude.{◌%◌, ◌^◌, ◌≤◌, ◌≡◌, refl, arith, false, ◌⊎◌, inl, inr, All}
use trend.Prelude.{List, [], ◌∷◌, ◌++◌, length, length-append}
use trend.Float.{Float64, is_nan, less, float_min, float_max}
use trend.Sketches.Quantiles.{less_self}

-- `x` is one of the values, bit for bit.
abbrev pub IsAmong : Float64 → List Float64 → Type 0
IsAmong x [] = ⊥
IsAmong x (y ∷ ys) = (x ≡ y) ⊎ IsAmong x ys

-- A number that is not below `lo` and not above `hi`.
abbrev pub IsBetween : Float64 → Float64 → Float64 → Type 0
IsBetween lo hi x = (is_nan x ≡ false) × (less x lo ≡ false) × (less hi x ≡ false)

All-snoc :
    (P : Float64 → Type 0) (xs : List Float64) (v : Float64)
    → All P xs
    → P v
    → All P (xs ++ (v ∷ []))
All-snoc P [] v h p = (p, tt)
All-snoc P (x ∷ xs) v (q, h) p = (q, All-snoc P xs v h p)

All-mono :
    (P Q : Float64 → Type 0) (xs : List Float64) → ((x : Float64) → P x → Q x) → All P xs → All Q xs
All-mono P Q [] f h = tt
All-mono P Q (x ∷ xs) f (p, h) = (f x p, All-mono P Q xs f h)

IsAmong-snoc :
    (x : Float64) (xs : List Float64) (v : Float64) → IsAmong x xs → IsAmong x (xs ++ (v ∷ []))
IsAmong-snoc x [] v h = absurd h
IsAmong-snoc x (y ∷ ys) v (inl e) = inl e
IsAmong-snoc x (y ∷ ys) v (inr h) = inr (IsAmong-snoc x ys v h)

pub IsAmong-last : (xs : List Float64) (v : Float64) → IsAmong v (xs ++ (v ∷ []))
IsAmong-last [] v = inl refl
IsAmong-last (y ∷ ys) v = inr (IsAmong-last ys v)

-- Go's min and max are one of their arguments.
pub min-either : (a b : Float64) → (float_min a b ≡ a) ⊎ (float_min a b ≡ b)
unfolding float_min
min-either a b = ground arith

pub max-either : (a b : Float64) → (float_max a b ≡ a) ⊎ (float_max a b ≡ b)
unfolding float_max
max-either a b = ground arith

pub IsAmong-either :
    (m lo v : Float64) (xs : List Float64)
    → (m ≡ lo) ⊎ (m ≡ v)
    → IsAmong lo xs
    → IsAmong m (xs ++ (v ∷ []))
IsAmong-either m lo v xs (inl e) h = rw e (IsAmong-snoc lo xs v h)
IsAmong-either m lo v xs (inr e) h = rw e (IsAmong-last xs v)

-- One more number between the extremes, or beyond one of them.
pub widen_lem :
    (lo hi v : Float64)
    → is_nan lo ≡ false
    → is_nan hi ≡ false
    → less hi lo ≡ false
    → is_nan v ≡ false
    → (is_nan (float_min lo v) ≡ false)
      × (is_nan (float_max hi v) ≡ false)
      × (less (float_max hi v) (float_min lo v) ≡ false)
unfolding less float_min float_max is_nan
widen_lem lo hi v a b h n = ground (arith, a, b, h, n)

-- What was between the extremes stays so, and the new number is, too.
IsBetween-wider :
    (lo hi v x : Float64)
    → is_nan lo ≡ false
    → is_nan hi ≡ false
    → is_nan v ≡ false
    → IsBetween lo hi x
    → IsBetween (float_min lo v) (float_max hi v) x
unfolding less float_min float_max is_nan
IsBetween-wider lo hi v x a b n (p, q, r) = ground (arith, a, b, n, p, q, r)

IsBetween-new :
    (lo hi v : Float64)
    → is_nan lo ≡ false
    → is_nan hi ≡ false
    → is_nan v ≡ false
    → IsBetween (float_min lo v) (float_max hi v) v
unfolding less float_min float_max is_nan
IsBetween-new lo hi v a b n = ground (arith, a, b, n)

pub wider :
    (lo hi v : Float64) (xs : List Float64)
    → is_nan lo ≡ false
    → is_nan hi ≡ false
    → is_nan v ≡ false
    → All (IsBetween lo hi) xs
    → All (IsBetween (float_min lo v) (float_max hi v)) (xs ++ (v ∷ []))
wider lo hi v xs a b n h =
    let Q = IsBetween (float_min lo v) (float_max hi v) in
    All-snoc Q xs v (All-mono (IsBetween lo hi) Q xs (λ x. IsBetween-wider lo hi v x a b n) h)
      (IsBetween-new lo hi v a b n)

pub single_lem :
    (xs : List Float64) (v : Float64)
    → is_nan v ≡ false
    → length xs % 2 ^ 64 ≡ 0
    → (2 ^ 64 ≤ length (xs ++ (v ∷ []))) ⊎ All (IsBetween v v) (xs ++ (v ∷ []))
single_lem [] v n h = inr ((n, less_self v, less_self v), tt)
single_lem (x ∷ xs) v n h = inl (omega (arith, h, length-append (x ∷ xs) (v ∷ [])))
