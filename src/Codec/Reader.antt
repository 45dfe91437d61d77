-- ===== src/Codec/Reader.antt =====
-- codecReader of codec.go: a byte slice that is eaten from the front, and a sticky error.
-- A byte is a number below 256 and a uint64 one below 2 ^ 64; `int` has 64 bits.
use Prim.Native.Nat.{bit_and, bit_or, bit_xor}
use trend.Prelude.{ℕ, zero, suc, ◌+◌, ◌-◌, ◌*◌, ◌%◌, ◌^◌, Option, none, some, List, [], ◌∷◌}
use trend.Prelude.{Bool, true, false, ltb, ◌==◌, if◌then◌else◌, ◌&&◌, length, take, drop}
use trend.Float.{Float64, reverse_bits}

-- The errors of codec.go. `bad_version b` is "unsupported version b", and `bad_block` is what
-- s2.Decode returns. `make_panic` is no error of Go: it stands for the panic of a `make` whose size
-- is out of range, which ends every call above it, and is kept apart from what a call returns.
pub data Error : Type 0 where
  short_codec long_codec large_codec varint_codec shape_codec bad_block make_panic : Error
  bad_version : ℕ → Error

unfoldable pub is_make_panic : Error → Bool
is_make_panic make_panic = true
is_make_panic _ = false

pub record Reader : Type 0 where
  pub input : List ℕ
  pub err : Option Error

abbrev pub ready : List ℕ → Reader
ready bs = record { input = bs; err = none }

abbrev pub failed : List ℕ → Error → Reader
failed bs e = record { input = bs; err = some e }

-- What a method of the reader does: a result and the reader after it.
abbrev pub ReaderM {ℓ} : Type ℓ → Type ℓ
ReaderM A = Reader → A × Reader

abbrev pub pure {ℓ} : {A : Type ℓ} → A → ReaderM A
pure a r = (a, r)

infixl 5 ◌>>=◌
abbrev pub ◌>>=◌ {ℓ κ} : {A : Type ℓ} {B : Type κ} → ReaderM A → (A → ReaderM B) → ReaderM B
◌>>=◌ m f r = let (a, r') = m r in f a r'

abbrev pub u64 : ℕ → ℕ
u64 n = n % 2 ^ 64

abbrev pub max_int : ℕ
max_int = 2 ^ 63 - 1

-- The largest size in bytes that `make` takes on a 64-bit machine: above it, it panics.
abbrev pub max_alloc : ℕ
max_alloc = 2 ^ 48

unfoldable pub byte : ReaderM ℕ
byte r = elim r.err [
  | some _ ↦ (0, r)
  | none ↦ elim r.input [ [] ↦ (0, failed [] short_codec) | b ∷ bs ↦ (b, ready bs) ]
]

unfoldable pub bytes : ℕ → ReaderM (List ℕ)
bytes n r =
    if ltb (length r.input) n
    then ([], record r { err = some short_codec })
    else (take n r.input, record r { input = drop n r.input })

-- The loop of `uvarint`: the bytes left, `shift` and `x`.
unfoldable pub uvarint_loop : List ℕ → ℕ → ℕ → ℕ × Reader
uvarint_loop [] shift x = (0, failed [] (if ltb shift 64 then short_codec else varint_codec))
uvarint_loop (b ∷ bs) shift x =
    let next = uvarint_loop bs (shift + 7) (bit_or x (u64 (bit_and b 0x7f * 2 ^ shift))) in
    if ltb shift 64
    then (if ltb b 0x80
        then (if shift == 63 && ltb 1 b
            then (0, failed bs varint_codec)
            else (bit_or x (u64 (b * 2 ^ shift)), ready bs))
        else next)
    else (0, failed (b ∷ bs) varint_codec)

unfoldable pub uvarint : ReaderM ℕ
uvarint r = elim r.err [ some _ ↦ (0, r) | none ↦ uvarint_loop r.input 0 0 ]

unfoldable pub count : ReaderM ℕ
count r =
    let (v, r') = uvarint r in
    elim r'.err [
      | some _ ↦ (0, r')
      | none ↦ if ltb max_int v then (0, record r' { err = some large_codec }) else (v, r')
    ]

-- `delta` and `floatXor` fill a slice; the number is how many elements are left to fill.
unfoldable pub delta_loop : ℕ → ℕ → ReaderM (List ℕ)
delta_loop zero prev = pure []
delta_loop (suc n) prev = do d ← uvarint; let v = u64 (prev + d); vs ← delta_loop n v; pure (v ∷ vs)

unfoldable pub delta : ℕ → ReaderM (List ℕ)
unfolding delta_loop
delta n = delta_loop n 0

unfoldable pub float_of_reversed : ℕ → Float64
float_of_reversed v = record { bits = reverse_bits 64 v }

unfoldable pub float_xor_loop : ℕ → ℕ → ReaderM (List Float64)
float_xor_loop zero prev = pure []
float_xor_loop (suc n) prev = do
  d ← uvarint
  let v = bit_xor prev d
  vs ← float_xor_loop n v
  pure (float_of_reversed v ∷ vs)

unfoldable pub float_xor : ℕ → ReaderM (List Float64)
unfolding float_xor_loop
float_xor n = float_xor_loop n 0

-- The error, or that of bytes left over.
unfoldable pub done : Reader → Option Error
done r = elim r.err [
  | some e ↦ some e
  | none ↦ elim r.input [ [] ↦ none | b ∷ bs ↦ some long_codec ]
]
