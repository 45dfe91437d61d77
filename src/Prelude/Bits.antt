-- ===== src/Prelude/Bits.antt =====
-- Laws of `bit_or`, `bit_and` and `bit_xor` at variables, by their binary digits.
use Prim.Native.Nat.{ℕ, zero, suc, ◌+◌, ◌*◌, ◌/◌, ◌%◌, ◌^◌, ◌≤◌, ◌<◌, max, differ, digits}
use Prim.Native.Nat.{bit_and, bit_or, bit_xor, bitwise, bit_or-bitwise, bit_xor-bitwise}
use mathlib.Core.Path.{◌≡◌, refl, sym, ap, ◌∙◌}
use mathlib.Core.Bool.{Bool, true, ◌&&◌}
use native.Mathlib.Nat.{pow-suc}
use native.Mathlib.Omega.{arith}
use trend.Prelude.Tests.{◌==◌, ==_iff}

-- Whether a test holds of the first numbers: it runs, so that a byte is a matter of trying.
holds_upto : (ℕ → Bool) → ℕ → Bool
holds_upto test zero = true
holds_upto test (suc top) = holds_upto test top && test top

holds_upto_at : (test : ℕ → Bool) (top v : ℕ) → v < top → holds_upto test top ≡ true → test v ≡ true
unfolding holds_upto
holds_upto_at test zero v below all = absurd (omega arith)
holds_upto_at test (suc top) v below all = ground (arith, holds_upto_at test top v)

-- A byte with its top bit set, and without it: `b | 0x80` and `b & 0x7f`.
pub bit_or_top : (b : ℕ) → b < 256 → bit_or b 0x80 ≡ b % 128 + 128
unfolding holds_upto
bit_or_top b below =
    let byte_test : ℕ → Bool = λ b. bit_or b 0x80 == b % 128 + 128 in
    (==_iff _ _).0 (holds_upto_at byte_test 256 b below refl)

pub bit_and_low : (b : ℕ) → b < 256 → bit_and b 0x7f ≡ b % 128
unfolding holds_upto
bit_and_low b below =
    let byte_test : ℕ → Bool = λ b. bit_and b 0x7f == b % 128 in
    (==_iff _ _).0 (holds_upto_at byte_test 256 b below refl)

-- One binary digit of a native operation: its rounds are as many as its first operand, and any
-- larger number of rounds does as well.
module _ (last : ℕ → ℕ) (join : ℕ → ℕ → ℕ) where
  digits_rounds :
      (k j x : ℕ) → x ≤ k → x ≤ j → (y : ℕ) → digits last join k x y ≡ digits last join j x y
  digits_rounds k j zero below also y = digits_none k ∙ sym (digits_none j)
    where
      digits_none : (n : ℕ) → digits last join n zero y ≡ last y
      digits_none zero = refl
      digits_none (suc n) = refl
  digits_rounds zero j (suc x) below also y = absurd (omega arith)
  digits_rounds (suc k) zero (suc x) below also y = absurd (omega arith)
  digits_rounds (suc k) (suc j) (suc x) below also y =
      let halves = digits_rounds k j (suc x / 2) (omega arith) (omega arith) (y / 2) in
      ap (λ (h : ℕ). h * 2 + join (suc x % 2) (y % 2)) halves

  bitwise_digit :
      (x y : ℕ)
      → bitwise last join (suc x) y
        ≡ bitwise last join (suc x / 2) (y / 2) * 2 + join (suc x % 2) (y % 2)
  bitwise_digit x y =
      let halves = digits_rounds x (suc x / 2) (suc x / 2) (omega arith) (omega arith) (y / 2) in
      ap (λ (h : ℕ). h * 2 + join (suc x % 2) (y % 2)) halves

pub bit_or_step : (x y : ℕ) → bit_or x y ≡ bit_or (x / 2) (y / 2) * 2 + max (x % 2) (y % 2)
bit_or_step zero y = simp bit_or-bitwise (omega arith)
bit_or_step (suc x) y =
    let digit = bitwise_digit (λ rest. rest) max x y in simp bit_or-bitwise digit

differ_digits : (x y : ℕ) → x < 2 → y < 2 → differ x y ≡ (x + y) % 2
differ_digits zero y h k = omega arith
differ_digits (suc zero) zero h k = refl
differ_digits (suc zero) (suc zero) h k = refl
differ_digits (suc zero) (suc (suc y)) h k = absurd (omega arith)
differ_digits (suc (suc x)) y h k = absurd (omega arith)

pub bit_xor_step : (x y : ℕ) → bit_xor x y ≡ bit_xor (x / 2) (y / 2) * 2 + (x + y) % 2
bit_xor_step zero y = simp bit_xor-bitwise (omega arith)
bit_xor_step (suc x) y =
    let low = differ_digits (suc x % 2) (y % 2) (omega arith) (omega arith) in
    simp bit_xor-bitwise (omega (arith, low, bitwise_digit (λ rest. rest) differ x y))

pub double_shift : (v n : ℕ) → v * 2 ^ suc n ≡ 2 * (v * 2 ^ n)
double_shift v n = omega (arith, ap (λ (power : ℕ). v * power) (pow-suc 2 n))

zero-bit_or : (b : ℕ) → bit_or 0 b ≡ b
zero-bit_or b = bit_or-bitwise 0 b

-- `r | (q << k)` is a sum when `r` fits `k` bits.
pub bit_or_high : (k q r : ℕ) → r < 2 ^ k → bit_or r (q * 2 ^ k) ≡ r + q * 2 ^ k
bit_or_high zero q zero h = omega (arith, zero-bit_or (q * 2 ^ 0))
bit_or_high zero q (suc r) h = absurd (omega arith)
bit_or_high (suc k) q r h = ground (
  arith,
  bit_or_step r (q * 2 ^ suc k),
  double_shift q k,
  pow-suc 2 k,
  bit_or_high k q (r / 2) (omega (arith, pow-suc 2 k)),
)

bit_xor_cancel_below : (n a b : ℕ) → a ≤ n → b ≤ n → bit_xor a (bit_xor b a) ≡ b
bit_xor_cancel_below zero zero zero h k = refl
bit_xor_cancel_below zero (suc a) b h k = absurd (omega arith)
bit_xor_cancel_below zero zero (suc b) h k = absurd (omega arith)
bit_xor_cancel_below (suc n) a b h k =
    let half : bit_xor b a / 2 ≡ bit_xor (b / 2) (a / 2) = omega (arith, bit_xor_step b a) in
    let step = bit_xor_step a (bit_xor b a) in
    let rest = bit_xor_cancel_below n (a / 2) (b / 2) (omega arith) (omega arith) in
    omega (arith, bit_xor_step b a, rw half at step, rest)

-- A delta by `^` is taken back by `^`.
pub bit_xor_cancel : (a b : ℕ) → bit_xor a (bit_xor b a) ≡ b
bit_xor_cancel a b = bit_xor_cancel_below (a + b) a b (omega arith) (omega arith)

pub bit_xor-lt : (k a b : ℕ) → a < 2 ^ k → b < 2 ^ k → bit_xor a b < 2 ^ k
bit_xor-lt zero zero zero h j = omega arith
bit_xor-lt zero (suc a) b h j = absurd (omega arith)
bit_xor-lt zero zero (suc b) h j = absurd (omega arith)
bit_xor-lt (suc k) a b h j = omega (
  arith,
  pow-suc 2 k,
  bit_xor_step a b,
  bit_xor-lt k (a / 2) (b / 2) (omega (arith, pow-suc 2 k)) (omega (arith, pow-suc 2 k)),
)
