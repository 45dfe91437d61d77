-- ===== src/Codec/Columns.antt =====
-- Columns of a segment: `appendDelta` and `appendFloatXor` of block.go, `delta` and `floatXor` of
-- codec.go.
use Prim.Native.Nat.{bit_xor}
use trend.Prelude.{ℕ, ◌+◌, ◌*◌, ◌^◌, ◌≤◌, ◌<◌, ◌≡◌, refl, sym, ◌∙◌, arith}
use trend.Prelude.{List, [], ◌∷◌, ◌++◌, append-nil, append_assoc, length, length-append, All}
use trend.Prelude.Bits.{bit_xor_cancel, bit_xor-lt}
use trend.Float.{Float64, IsFloat, reverse_bits, reverse_bits-lt, reverse_bits_twice}
use trend.Data.{IsU64}
use trend.Codec.Reader.{
  ReaderM, ready, pure, ◌>>=◌, u64, uvarint, delta_loop, delta, float_of_reversed, float_xor_loop,
  float_xor,
}
use trend.Codec.Writer.{
  append_uvarint, sub64, append_delta_loop, append_delta, append_float, append_float_xor_loop,
  append_float_xor,
}
use trend.Codec.Varint.{
  varint, append_uvarint-varint, uvarint-Reads, Reads, Reads->>=, length-varint,
}

pub sub64-lt : (a b : ℕ) → sub64 a b < 2 ^ 64
sub64-lt a b = omega arith

-- Adding a difference back wraps to the value, also where the column falls.
pub add_sub64 : (a b : ℕ) → a < 2 ^ 64 → b < 2 ^ 64 → u64 (b + sub64 a b) ≡ a
add_sub64 a b h k = omega arith

-- `uvarint` where the value read is known, followed by the rest of a `do` block.
pub uvarint_then {ℓ} :
    {A : Type ℓ} (v : ℕ) (f : ℕ → ReaderM A) (bs : List ℕ) (a : A)
    → v < 2 ^ 64
    → Reads (f v) bs a
    → Reads (uvarint >>= f) (varint v ++ bs) a
uvarint_then v f bs a h k = Reads->>= uvarint f (varint v) bs v a (uvarint-Reads v h) k

pub pure-Reads {ℓ} : {A : Type ℓ} (a : A) → Reads (pure a) [] a
pure-Reads a rest = refl

-- A read whose result goes through a function at the end.
pub Reads-then_pure {ℓ κ} :
    {A : Type ℓ} {B : Type κ} (m : ReaderM A) (f : A → B) (bs : List ℕ) (a : A)
    → Reads m bs a
    → Reads (m >>= λ x. pure (f x)) bs (f a)
Reads-then_pure m f bs a h rest = rw (h rest)

unfoldable pub deltas : ℕ → List ℕ → List ℕ
deltas prev [] = []
deltas prev (v ∷ vs) = varint (sub64 v prev) ++ deltas v vs

append_delta_loop-deltas :
    (dst : List ℕ) (prev : ℕ) (vs : List ℕ) → append_delta_loop dst prev vs ≡ dst ++ deltas prev vs
unfolding append_delta_loop deltas
append_delta_loop-deltas dst prev [] = sym (append-nil dst)
append_delta_loop-deltas dst prev (v ∷ vs) =
    append_delta_loop-deltas (append_uvarint dst (sub64 v prev)) v vs
    ∙ rw append_uvarint-varint (append_assoc dst (varint (sub64 v prev)) (deltas v vs))

pub append_delta-deltas : (dst vs : List ℕ) → append_delta dst vs ≡ dst ++ deltas 0 vs
unfolding append_delta
append_delta-deltas dst vs = append_delta_loop-deltas dst 0 vs

delta_loop-Reads :
    (prev : ℕ) (vs : List ℕ)
    → IsU64 prev
    → All IsU64 vs
    → Reads (delta_loop (length vs) prev) (deltas prev vs) vs
unfolding delta_loop deltas
delta_loop-Reads prev [] p h = pure-Reads []
delta_loop-Reads prev (v ∷ vs) p (q, h) =
    uvarint_then (sub64 v prev)
      (λ d. delta_loop (length vs) (u64 (prev + d)) >>= λ ws. pure (u64 (prev + d) ∷ ws))
      (deltas v vs) (v ∷ vs) (sub64-lt v prev)
      (rw (add_sub64 v prev q p) (
        Reads-then_pure (delta_loop (length vs) v) (λ ws. v ∷ ws) (deltas v vs) vs
          (delta_loop-Reads v vs q h)))

pub delta-Reads : (vs : List ℕ) → All IsU64 vs → Reads (delta (length vs)) (deltas 0 vs) vs
unfolding delta
delta-Reads vs h = delta_loop-Reads 0 vs (omega arith) h

pub length-deltas : (prev : ℕ) (vs : List ℕ) → length (deltas prev vs) ≤ 10 * length vs
unfolding deltas
length-deltas prev [] = omega arith
length-deltas prev (v ∷ vs) = omega (
  arith,
  length-append (varint (sub64 v prev)) (deltas v vs),
  length-varint (sub64 v prev),
  length-deltas v vs,
)

-- The reversed bits of a float, as they are compared with those of its predecessor.
abbrev pub reversed : Float64 → ℕ
reversed v = reverse_bits 64 v.bits

pub reversed-lt : (v : Float64) → reversed v < 2 ^ 64
reversed-lt v = reverse_bits-lt 64 v.bits

pub float_of_reversed-reversed : (v : Float64) → IsFloat v → float_of_reversed (reversed v) ≡ v
unfolding float_of_reversed
float_of_reversed-reversed v h = λ i. record { bits = reverse_bits_twice 64 v.bits h i }

unfoldable pub xors : ℕ → List Float64 → List ℕ
xors prev [] = []
xors prev (v ∷ vs) = varint (bit_xor (reversed v) prev) ++ xors (reversed v) vs

append_float_xor_loop-xors :
    (dst : List ℕ) (prev : ℕ) (vs : List Float64)
    → append_float_xor_loop dst prev vs ≡ dst ++ xors prev vs
unfolding append_float_xor_loop append_float xors
append_float_xor_loop-xors dst prev [] = sym (append-nil dst)
append_float_xor_loop-xors dst prev (v ∷ vs) =
    append_float_xor_loop-xors (append_uvarint dst (bit_xor (reversed v) prev)) (reversed v) vs
    ∙ rw append_uvarint-varint
        (append_assoc dst (varint (bit_xor (reversed v) prev)) (xors (reversed v) vs))

pub append_float_xor-xors :
    (dst : List ℕ) (vs : List Float64) → append_float_xor dst vs ≡ dst ++ xors 0 vs
unfolding append_float_xor
append_float_xor-xors dst vs = append_float_xor_loop-xors dst 0 vs

float_xor_loop-Reads :
    (prev : ℕ) (vs : List Float64)
    → IsU64 prev
    → All IsFloat vs
    → Reads (float_xor_loop (length vs) prev) (xors prev vs) vs
unfolding float_xor_loop xors
float_xor_loop-Reads prev [] p h = pure-Reads []
float_xor_loop-Reads prev (v ∷ vs) p (q, h) =
    uvarint_then (bit_xor (reversed v) prev)
      (λ d. float_xor_loop (length vs) (bit_xor prev d) >>= λ ws.
        pure (float_of_reversed (bit_xor prev d) ∷ ws))
      (xors (reversed v) vs) (v ∷ vs) (bit_xor-lt 64 (reversed v) prev (reversed-lt v) p)
      (rw (bit_xor_cancel prev (reversed v), float_of_reversed-reversed v q)
        (Reads-then_pure (float_xor_loop (length vs) (reversed v)) (λ ws. v ∷ ws)
          (xors (reversed v) vs) vs (float_xor_loop-Reads (reversed v) vs (reversed-lt v) h)))

pub float_xor-Reads :
    (vs : List Float64) → All IsFloat vs → Reads (float_xor (length vs)) (xors 0 vs) vs
unfolding float_xor
float_xor-Reads vs h = float_xor_loop-Reads 0 vs (omega arith) h

pub length-xors : (prev : ℕ) (vs : List Float64) → length (xors prev vs) ≤ 10 * length vs
unfolding xors
length-xors prev [] = omega arith
length-xors prev (v ∷ vs) = omega (
  arith,
  length-append (varint (bit_xor (reversed v) prev)) (xors (reversed v) vs),
  length-varint (bit_xor (reversed v) prev),
  length-xors (reversed v) vs,
)

-- A column of uint64 values comes back from its differences, whatever bytes follow: the values need
-- not ascend, since a difference is taken modulo 2 ^ 64 and added the same way.
pub delta-append_delta :
    (vs rest : List ℕ)
    → All IsU64 vs
    → delta (length vs) (ready (append_delta [] vs ++ rest)) ≡ (vs, ready rest)
delta-append_delta vs rest h = rw (append_delta-deltas [] vs) (delta-Reads vs h rest)

-- A column of floats comes back bit for bit, NaN included, whatever bytes follow.
pub float_xor-append_float_xor :
    (vs : List Float64) (rest : List ℕ)
    → All IsFloat vs
    → float_xor (length vs) (ready (append_float_xor [] vs ++ rest)) ≡ (vs, ready rest)
float_xor-append_float_xor vs rest h = rw (append_float_xor-xors [] vs) (float_xor-Reads vs h rest)
