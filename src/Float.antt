-- ===== src/Float.antt =====
-- float64 values. A float is its IEEE 754 bit pattern, so math.Float64bits and
-- math.Float64frombits are the field and the constructor; comparison, NaN and infinity are read
-- off the pattern. Rounded arithmetic is a parameter (`Arith`).
-- floatFromReversed and the bit reversals of codec.go and block.go are here.
use trend.Prelude.{ℕ, zero, suc, ◌+◌, ◌-◌, ◌*◌, ◌/◌, ◌%◌, ◌^◌, ◌<◌, ◌≡◌, refl, arith, ◌∙◌}
use trend.Prelude.{Bool, not, ◌&&◌, ltb, ◌==◌, if◌then◌else◌}
use trend.Prelude.Bits.{double_shift}
use native.Mathlib.Nat.{pow-suc, add_comm}

pub record Float64 : Type 0 where
  pub bits : ℕ

-- Float64bits gives a uint64.
abbrev pub IsFloat : Float64 → Type 0
IsFloat v = v.bits < 2 ^ 64

-- The 63 bits below the sign.
abbrev magnitude : Float64 → ℕ
magnitude v = v.bits % 2 ^ 63

abbrev infinity_bits : ℕ
infinity_bits = 0x7ff0_0000_0000_0000

-- math.IsNaN and math.IsInf(v, 0).
unfoldable pub is_nan : Float64 → Bool
is_nan v = ltb infinity_bits (magnitude v)

unfoldable pub is_inf : Float64 → Bool
is_inf v = magnitude v == infinity_bits

-- Where a float that is no number stands in the order; both zeros are at 2 ^ 63.
abbrev pub rank : Float64 → ℕ
rank v = if ltb v.bits (2 ^ 63) then 2 ^ 63 + v.bits else 2 ^ 63 - magnitude v

-- a < b. A comparison with NaN is false.
unfoldable pub less : Float64 → Float64 → Bool
unfolding is_nan
less a b = not (is_nan a) && (not (is_nan b) && ltb (rank a) (rank b))

-- v == 0, which both zeros satisfy.
unfoldable pub is_zero : Float64 → Bool
is_zero v = magnitude v == 0

-- math.Abs.
abbrev pub abs : Float64 → Float64
abs v = record { bits = magnitude v }

-- Go's min and max put -0.0 before 0.0, and give a NaN if there is one.
abbrev strict_rank : Float64 → ℕ
strict_rank v = if ltb v.bits (2 ^ 63) then 2 ^ 63 + v.bits else 2 ^ 63 - 1 - magnitude v

unfoldable pub float_min : Float64 → Float64 → Float64
unfolding is_nan
float_min a b =
    if is_nan a
    then a
    else if is_nan b
    then b
    else if ltb (strict_rank b) (strict_rank a)
    then b
    else a

unfoldable pub float_max : Float64 → Float64 → Float64
unfolding is_nan
float_max a b =
    if is_nan a
    then a
    else if is_nan b
    then b
    else if ltb (strict_rank a) (strict_rank b)
    then b
    else a

abbrev pub zero_float : Float64
zero_float = record { bits = 0 }

-- Rounded arithmetic, and the conversion float64(n) of a uint64.
pub record Arith : Type 0 where
  pub add : Float64 → Float64 → Float64
  pub div : Float64 → Float64 → Float64
  pub of_uint64 : ℕ → Float64

-- bits.Reverse64 is `reverse_bits 64`.
unfoldable pub reverse_bits : ℕ → ℕ → ℕ
reverse_bits zero v = 0
reverse_bits (suc k) v = v % 2 * 2 ^ k + reverse_bits k (v / 2)

pub reverse_bits-lt : (k v : ℕ) → reverse_bits k v < 2 ^ k
unfolding reverse_bits
reverse_bits-lt zero v = omega arith
reverse_bits-lt (suc k) v = ground (arith, pow-suc 2 k, reverse_bits-lt k (v / 2), digit (v % 2))
  where
    digit : (d : ℕ) → (d ≡ 0 → d * 2 ^ k ≡ 0) × (d ≡ 1 → d * 2 ^ k ≡ 2 ^ k)
    digit d = (λ e. rw e (omega arith), λ e. rw e (omega arith))

reverse_bits-suc : (k v : ℕ) → reverse_bits (suc k) v ≡ v % 2 * 2 ^ k + reverse_bits k (v / 2)
unfolding reverse_bits
reverse_bits-suc k v = refl

split_low : (r m : ℕ) → ((r + 2 * m) / 2 ≡ r / 2 + m) × ((r + 2 * m) % 2 ≡ r % 2)
split_low r m = omega arith

-- The top digit comes out lowest.
reverse_bits_top :
    (k r q : ℕ)
    → r < 2 ^ k
    → q < 2
    → reverse_bits (suc k) (r + q * 2 ^ k) ≡ reverse_bits k r * 2 + q
reverse_bits_top zero r q h j = unfold reverse_bits in omega arith
reverse_bits_top (suc k) r q h j =
    reverse_bits-suc (suc k) (r + q * 2 ^ suc k)
    ∙ rw
        (
          double_shift q k,
          (split_low r (q * 2 ^ k)).0,
          (split_low r (q * 2 ^ k)).1,
          reverse_bits_top k (r / 2) q (omega (arith, pow-suc 2 k)) j,
          reverse_bits-suc k r,
          double_shift (r % 2) k,
        )
        (omega arith)

pub reverse_bits_twice : (k v : ℕ) → v < 2 ^ k → reverse_bits k (reverse_bits k v) ≡ v
reverse_bits_twice zero v h = unfold reverse_bits in omega arith
reverse_bits_twice (suc k) v h =
    rw
      (
        reverse_bits-suc k v,
        add_comm (v % 2 * 2 ^ k) (reverse_bits k (v / 2)),
        reverse_bits_top k (reverse_bits k (v / 2)) (v % 2) (reverse_bits-lt k (v / 2))
            (omega arith),
        reverse_bits_twice k (v / 2) (omega (arith, pow-suc 2 k)),
      )
      (omega arith)
