-- ===== src/Buffer.antt =====
-- The write buffer of db.go. A key is its bytes. A state is owned by `items`, by the caller of
-- `flush` or by `spare`, never by two of them, so that a pointer to it is modelled by its value. The
-- head of `spare` is the last element of the slice.
pub mod Laws
use trend.Prelude.{
  ℕ, Bool, true, false, ◌&&◌, Option, none, some, List, [], ◌∷◌, ◌==◌, if◌then◌else◌,
}
use trend.Float.{Float64}
use trend.Data.{Pending, no_pending}
use trend.Samples
use trend.Counters
use trend.Sketches
use trend.State.{reset_pending}

abbrev pub Key : Type 0
Key = List ℕ

abbrev pub same_key : Key → Key → Bool
same_key [] [] = true
same_key (x ∷ xs) (y ∷ ys) = x == y && same_key xs ys
same_key _ _ = false

-- A Go map from keys to states.
unfoldable pub find : Key → List (Key × Pending) → Option Pending
find key [] = none
find key ((k, p) ∷ m) = if same_key k key then some p else find key m

unfoldable pub put : Key → Pending → List (Key × Pending) → List (Key × Pending)
put key p [] = (key, p) ∷ []
put key p ((k, q) ∷ m) = if same_key k key then (k, p) ∷ m else (k, q) ∷ put key p m

pub record Buffer : Type 0 where
  pub items : List (Key × Pending)
  pub spare : List Pending

unfoldable pub get : Buffer → Pending × Buffer
get b = elim b.spare [ [] ↦ (no_pending, b) | p ∷ ps ↦ (p, record b { spare = ps }) ]

unfoldable pub series : Key → Buffer → Pending × Buffer
series key b = elim (find key b.items) [
  | some p ↦ (p, b)
  | none ↦ let (p, b') = get b in (p, record b' { items = put key p b'.items })
]

-- A write through the pointer that `series` returns.
unfoldable pub write : (Pending → Pending) → Key → Buffer → Buffer
unfolding series
write change key b = let (p, b') = series key b in record b' { items = put key (change p) b'.items }

unfoldable pub add_sample : Key → ℕ → Float64 → ℕ → ℕ → Buffer → Buffer
add_sample key at value clock replica b =
    write (λ p. record p { samples = trend.Samples.add p.samples at value clock replica }) key b

unfoldable pub add_counter : Key → ℕ → ℕ → ℕ → ℕ → Buffer → Buffer
add_counter key at replica clock value b =
    write (λ p. record p { counters = trend.Counters.add p.counters at replica clock value }) key b

unfoldable pub add_sketch : Key → ℕ → Float64 → ℕ → ℕ → Buffer → Buffer
add_sketch key at value clock replica b =
    write (λ p. record p { sketches = trend.Sketches.add p.sketches at value clock replica }) key b

unfoldable pub clone : Key → Buffer → Option Pending
clone key b = find key b.items

unfoldable pub flush_items : Buffer → List (Key × Pending) × Buffer
flush_items b = (b.items, record b { items = [] })

unfoldable pub recycle : Pending → Buffer → Buffer
recycle p b = record b { spare = reset_pending p ∷ b.spare }
