-- ===== src/Codec/Shrink.antt =====
-- The input that the reads of codec.go leave, and the fuel of `scan`.
use trend.Prelude.{ℕ, zero, suc, ◌+◌, ◌*◌, ◌^◌, ◌≤◌, ◌<◌, ◌≡◌, refl, Bool, none, arith}
use Prim.Native.Nat.{bit_and, bit_or}
use trend.Prelude.{List, [], ◌∷◌, length, length-drop}
use trend.Codec.Reader.{Reader, u64, byte, bytes, uvarint_loop, uvarint, count}
use trend.Codec.Segment.{Segment, read_segment, scan_loop}

abbrev pub left : Reader → ℕ
left r = length r.input

uvarint_loop-shrinks : (bs : List ℕ) (shift x : ℕ) → left (uvarint_loop bs shift x).1 ≤ length bs
unfolding uvarint_loop
uvarint_loop-shrinks [] shift x = omega arith
uvarint_loop-shrinks (b ∷ bs) shift x =
    ground
      (arith, uvarint_loop-shrinks bs (shift + 7) (bit_or x (u64 (bit_and b 0x7f * 2 ^ shift))))

uvarint-shrinks : (r : Reader) → left (uvarint r).1 ≤ left r
unfolding uvarint
uvarint-shrinks r = ground (arith, uvarint_loop-shrinks r.input 0 0)

count-shrinks : (r : Reader) → left (count r).1 ≤ left r
unfolding count
count-shrinks r = ground (arith, uvarint-shrinks r)

bytes-shrinks : (n : ℕ) (r : Reader) → left (bytes n r).1 ≤ left r
unfolding bytes
bytes-shrinks n r = ground (arith, length-drop n r.input)

byte-shrinks : (r : Reader) → r.err ≡ none → 0 < left r → left (byte r).1 < left r
unfolding byte
byte-shrinks r h p = ground arith

pub read_segment-shrinks :
    (r : Reader) → r.err ≡ none → 0 < left r → left (read_segment r).1 < left r
unfolding read_segment
read_segment-shrinks r h p =
    omega (arith, byte-shrinks r h p, uvarint-shrinks, count-shrinks, bytes-shrinks)

module _ {ℓ} {S : Type ℓ} (yield : Segment → S → S × Bool) where
  -- Any fuel that covers the input gives `scan` the same result: its loop does not stop for want of
  -- fuel.
  pub scan_loop_fuel :
      (n m : ℕ) (r : Reader) (s : S)
      → left r ≤ n
      → left r ≤ m
      → scan_loop yield n r s ≡ scan_loop yield m r s
  unfolding scan_loop
  scan_loop_fuel zero zero r s p q = refl
  scan_loop_fuel zero (suc m) r s p q = ground arith
  scan_loop_fuel (suc n) zero r s p q = ground arith
  scan_loop_fuel (suc n) (suc m) r s p q = ground (
    arith,
    read_segment-shrinks r,
    scan_loop_fuel n m (read_segment r).1 (yield (read_segment r).0 s).0,
  )
