-- ===== src/Codec/BucketRows.antt =====
-- The bucket loops of block.go and `pending` on the segments they write.
pub mod Samples
pub mod Counters
pub mod Sketches
use trend.Prelude.{ℕ, zero, suc, ◌≡◌, refl, List, [], ◌∷◌, map, All, take, drop}
use trend.Data.{SampleBucket, CounterBucket, SketchBucket}
use trend.Codec.Segments.{last_or, last_sample_time, last_counter_time, last_sketch_time}

module _ {ℓ κ} {A : Type ℓ} {B : Type κ} (f : A → B) where
  pub map-take : (n : ℕ) (xs : List A) → map f (take n xs) ≡ take n (map f xs)
  map-take zero xs = refl
  map-take (suc n) [] = refl
  map-take (suc n) (x ∷ xs) = rw (map-take n xs)

  pub map-drop : (n : ℕ) (xs : List A) → map f (drop n xs) ≡ drop n (map f xs)
  map-drop zero xs = refl
  map-drop (suc n) [] = refl
  map-drop (suc n) (x ∷ xs) = map-drop n xs

  pub All-map {μ} : (P : B → Type μ) (xs : List A) → All (λ x. P (f x)) xs → All P (map f xs)
  All-map P [] h = tt
  All-map P (x ∷ xs) (p, h) = (p, All-map P xs h)

pub All-imp {ℓ κ μ} :
    {A : Type ℓ} (P : A → Type κ) (Q : A → Type μ)
    → ((x : A) → P x → Q x)
    → (xs : List A) → All P xs
    → All Q xs
All-imp P Q f [] h = tt
All-imp P Q f (x ∷ xs) (p, h) = (f x p, All-imp P Q f xs h)

abbrev pub sample_times : List SampleBucket → List ℕ
sample_times bs = map (λ b. b.time) bs

abbrev pub counter_times : List CounterBucket → List ℕ
counter_times bs = map (λ b. b.time) bs

abbrev pub sketch_times : List SketchBucket → List ℕ
sketch_times bs = map (λ b. b.time) bs

pub last_sample_time-last_or :
    (t : ℕ) (bs : List SampleBucket) → last_sample_time t bs ≡ last_or t (sample_times bs)
unfolding last_sample_time last_or
last_sample_time-last_or t [] = refl
last_sample_time-last_or t (b ∷ bs) = last_sample_time-last_or b.time bs

pub last_counter_time-last_or :
    (t : ℕ) (bs : List CounterBucket) → last_counter_time t bs ≡ last_or t (counter_times bs)
unfolding last_counter_time last_or
last_counter_time-last_or t [] = refl
last_counter_time-last_or t (b ∷ bs) = last_counter_time-last_or b.time bs

pub last_sketch_time-last_or :
    (t : ℕ) (bs : List SketchBucket) → last_sketch_time t bs ≡ last_or t (sketch_times bs)
unfolding last_sketch_time last_or
last_sketch_time-last_or t [] = refl
last_sketch_time-last_or t (b ∷ bs) = last_sketch_time-last_or b.time bs
