-- ===== src/Buffer/Laws.antt =====
-- Laws of the write buffer of db.go: what it shows of a key, and its spare states.
use trend.Prelude.{
  ℕ, ◌≡◌, refl, ap, arith, true, Option, none, some, List, [], ◌∷◌, if◌then◌else◌, All,
}
use trend.Float.{Float64}
use trend.Data.{Pending, no_pending}
use trend.State.{reset_pending}
use trend.Samples
use trend.Counters
use trend.Sketches
use trend.Buffer.{
  Key, same_key, find, put, Buffer, get, series, write, add_sample, add_counter, add_sketch, clone,
  flush_items, recycle,
}

same_key_eq : (a b c : Key) → same_key a b ≡ true → same_key a c ≡ same_key b c
same_key_eq [] [] c h = refl
same_key_eq [] (y ∷ ys) c h = ground (arith, h)
same_key_eq (x ∷ xs) [] c h = ground (arith, h)
same_key_eq (x ∷ xs) (y ∷ ys) [] h = refl
same_key_eq (x ∷ xs) (y ∷ ys) (z ∷ zs) h = ground (arith, h, same_key_eq xs ys zs)

same_key_sym : (a b : Key) → same_key a b ≡ same_key b a
same_key_sym [] [] = refl
same_key_sym [] (y ∷ ys) = refl
same_key_sym (x ∷ xs) [] = refl
same_key_sym (x ∷ xs) (y ∷ ys) = ground (arith, same_key_sym xs ys)

find-put :
    (j key : Key) (p : Pending) (m : List (Key × Pending))
    → find j (put key p m) ≡ (if same_key key j then some p else find j m)
unfolding find put
find-put j key p [] = refl
find-put j key p ((k, q) ∷ m) =
    ground (arith, find-put j key p m, same_key_eq k key j, same_key_eq k j key, same_key_sym j key)

-- A spare state holds nothing.
abbrev pub IsClean : Buffer → Type 0
IsClean b = All (λ p. p ≡ no_pending) b.spare

-- What a write finds under a key: the state there, or an empty one.
abbrev pub or_empty : Option Pending → Pending
or_empty none = no_pending
or_empty (some p) = p

get-IsClean :
    (b : Buffer)
    → IsClean b
    → ((get b).0 ≡ no_pending) × IsClean (get b).1 × ((get b).1.items ≡ b.items)
unfolding get
get-IsClean b h = ground (arith, h)

series-IsClean :
    (key : Key) (b : Buffer)
    → IsClean b
    → ((series key b).0 ≡ or_empty (find key b.items)) × IsClean (series key b).1
unfolding series
series-IsClean key b h = ground (arith, h, get-IsClean b h)

find_same : (j key : Key) (m : List (Key × Pending)) → same_key key j ≡ true → find j m ≡ find key m
unfolding find
find_same j key [] h = refl
find_same j key ((k, p) ∷ m) h =
    ground
      (arith, h, find_same j key m h, same_key_eq key j k, same_key_sym key k, same_key_sym j k)

find-series :
    (j key : Key) (b : Buffer)
    → IsClean b
    → find j (series key b).1.items
      ≡ (if same_key key j then some (or_empty (find key b.items)) else find j b.items)
unfolding series
find-series j key b h = ground (
  arith,
  h,
  get-IsClean b h,
  ap (find j) (get-IsClean b h).2,
  find-put j key (get b).0 (get b).1.items,
  find_same j key b.items,
)

clone-write :
    (change : Pending → Pending) (j key : Key) (b : Buffer)
    → IsClean b
    → clone j (write change key b)
      ≡ (if same_key key j then some (change (or_empty (clone key b))) else clone j b)
unfolding clone write
clone-write change j key b h = ground (
  arith,
  series-IsClean key b h,
  find-series j key b h,
  find-put j key (change (series key b).0) (series key b).1.items,
)

write-IsClean :
    (change : Pending → Pending) (key : Key) (b : Buffer) → IsClean b → IsClean (write change key b)
unfolding write
write-IsClean change key b h = (series-IsClean key b h).1

-- Where no spare state holds anything, a write adds its row to what the buffer shows of its key, or
-- to an empty state if it shows nothing, and leaves what it shows of the other keys.
pub clone-add :
    (j key : Key) (b : Buffer)
    → IsClean b
    → (at clock replica value : ℕ) (v : Float64)
    → (clone j (add_sample key at v clock replica b) ≡ (
        if same_key key j
        then (let p = or_empty (clone key b) in
            some (record p { samples = trend.Samples.add p.samples at v clock replica }))
        else clone j b))
      × (clone j (add_counter key at replica clock value b) ≡ (
          if same_key key j
          then (let p = or_empty (clone key b) in
              some (record p { counters = trend.Counters.add p.counters at replica clock value }))
          else clone j b))
      × (clone j (add_sketch key at v clock replica b) ≡ (
          if same_key key j
          then (let p = or_empty (clone key b) in
              some (record p { sketches = trend.Sketches.add p.sketches at v clock replica }))
          else clone j b))
unfolding add_sample add_counter add_sketch
clone-add j key b h at clock replica value v =
    (clone-write _ j key b h, clone-write _ j key b h, clone-write _ j key b h)

reset-none : (p : Pending) → reset_pending p ≡ no_pending
unfolding reset_pending trend.Samples.reset trend.Counters.reset trend.Sketches.reset
reset-none p = refl

-- Every operation of the buffer keeps the spare states empty, and after `flush` it shows nothing of
-- any key.
pub IsClean-kept :
    (key : Key) (b : Buffer)
    → IsClean b
    → (at clock replica value : ℕ) (v : Float64) (p : Pending)
    → IsClean (add_sample key at v clock replica b)
      × IsClean (add_counter key at replica clock value b)
      × IsClean (add_sketch key at v clock replica b)
      × IsClean (recycle p b)
      × IsClean (flush_items b).1
      × (clone key (flush_items b).1 ≡ none)
unfolding add_sample add_counter add_sketch recycle flush_items clone find
IsClean-kept key b h at clock replica value v p = (
  write-IsClean _ key b h,
  write-IsClean _ key b h,
  write-IsClean _ key b h,
  (reset-none p, h),
  h,
  refl,
)
