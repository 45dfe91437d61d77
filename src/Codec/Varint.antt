-- ===== src/Codec/Varint.antt =====
-- `appendUvarint` and `uvarint` of codec.go.
use trend.Prelude.{ℕ, zero, suc, ◌+◌, ◌*◌, ◌/◌, ◌%◌, ◌^◌, ◌≤◌, ◌<◌, ◌≡◌, refl, ap, ◌∙◌, arith}
use trend.Prelude.{List, [], ◌∷◌, ◌++◌, append_assoc, length, leb, if◌then◌else◌}
use trend.Prelude.Bits.{bit_or_top, bit_and_low, bit_or_high}
use trend.Codec.Reader.{ReaderM, ready, uvarint_loop, uvarint, ◌>>=◌}
use trend.Codec.Writer.{append_uvarint_loop, append_uvarint}
use native.Mathlib.Numerals.{towards_suc}
use native.Mathlib.Nat.{div-add-mod}

-- The groups of seven bits of `v`, the lowest first.
unfoldable pub groups : ℕ → ℕ → List ℕ
groups zero v = v % 256 ∷ []
groups (suc k) v =
    let rest = groups k (v / 128) in if leb 0x80 v then (v % 128 + 128) ∷ rest else v % 256 ∷ []

append_uvarint_loop-groups :
    (k : ℕ) (dst : List ℕ) (v : ℕ) → append_uvarint_loop k dst v ≡ dst ++ groups k v
unfolding append_uvarint_loop groups
append_uvarint_loop-groups zero dst v = refl
append_uvarint_loop-groups (suc k) dst v = ground (
  arith,
  bit_or_top (v % 256),
  append_uvarint_loop-groups k (dst ++ ((v % 128 + 128) ∷ [])) (v / 128),
  append_assoc dst ((v % 128 + 128) ∷ []) (groups k (v / 128)),
)

-- The bytes of a uint64.
unfoldable pub varint : ℕ → List ℕ
unfolding groups
varint v = groups 9 v

pub append_uvarint-varint : (dst : List ℕ) (v : ℕ) → append_uvarint dst v ≡ dst ++ varint v
unfolding append_uvarint varint
append_uvarint-varint dst v = append_uvarint_loop-groups 9 dst v

pow_shift : (s : ℕ) → 2 ^ (s + 7) ≡ 128 * 2 ^ s
pow_shift s = simp towards_suc (omega arith)

split_group : (v s : ℕ) → v * 2 ^ s ≡ v % 128 * 2 ^ s + v / 128 * 2 ^ (s + 7)
split_group v s = omega (
  arith,
  ap (λ (t : ℕ). t * 2 ^ s) (div-add-mod v 128),
  ap (λ (t : ℕ). v / 128 * t) (pow_shift s),
)

low_fits : (g s : ℕ) → g < 128 → g * 2 ^ s + 2 ^ s ≤ 128 * 2 ^ s
low_fits g s h = grind arith

top_round : (v s : ℕ) → v * 2 ^ s < 2 ^ 64 → s ≡ 63 → v < 2
top_round v s h e = let k = rw e at h in omega arith

last_group :
    (v shift x : ℕ) (rest : List ℕ)
    → shift < 64
    → x < 2 ^ shift
    → x + v * 2 ^ shift < 2 ^ 64
    → v < 128
    → uvarint_loop (v ∷ rest) shift x ≡ (x + v * 2 ^ shift, ready rest)
unfolding uvarint_loop
last_group v shift x rest hs hx fits hv = ground (arith, top_round v shift, bit_or_high shift v x)

inner_group :
    (g shift x : ℕ) (rest : List ℕ)
    → shift < 64
    → x < 2 ^ shift
    → x + g * 2 ^ shift < 2 ^ 64
    → g < 128
    → uvarint_loop ((g + 128) ∷ rest) shift x ≡ uvarint_loop rest (shift + 7) (x + g * 2 ^ shift)
unfolding uvarint_loop
inner_group g shift x rest hs hx fits hg =
    ground (arith, bit_and_low (g + 128), bit_or_high shift g x)

uvarint_loop-groups :
    (k j v shift x : ℕ) (rest : List ℕ)
    → shift ≡ 7 * j
    → k + j ≡ 9
    → x < 2 ^ shift
    → x + v * 2 ^ shift < 2 ^ 64
    → v < 128 ^ suc k
    → uvarint_loop (groups k v ++ rest) shift x ≡ (x + v * 2 ^ shift, ready rest)
unfolding groups
uvarint_loop-groups zero j v shift x rest hs hj hx fits hv =
    ground (arith, last_group v shift x rest)
uvarint_loop-groups (suc k) j v shift x rest hs hj hx fits hv = ground (
  arith,
  last_group v shift x rest,
  split_group v shift,
  pow_shift shift,
  low_fits (v % 128) shift,
  inner_group (v % 128) shift x (groups k (v / 128) ++ rest),
  uvarint_loop-groups k (j + 1) (v / 128) (shift + 7) (x + v % 128 * 2 ^ shift) rest,
)

-- `m` reads `bs` as `a`, whatever follows, and leaves what follows.
abbrev pub Reads {ℓ} : {A : Type ℓ} → ReaderM A → List ℕ → A → Type ℓ
Reads m bs a = (rest : List ℕ) → m (ready (bs ++ rest)) ≡ (a, ready rest)

-- A uint64 that `appendUvarint` wrote is read back by `uvarint`.
pub uvarint-Reads : (v : ℕ) → v < 2 ^ 64 → Reads uvarint (varint v) v
unfolding uvarint varint
uvarint-Reads v h rest =
    uvarint_loop-groups 9 0 v 0 0 rest refl refl (omega arith) (omega arith) (omega arith)
    ∙ ap (λ (t : ℕ). (t, ready rest)) (omega arith)

-- Two reads, one after the other.
pub Reads->>= {ℓ κ} :
    {A : Type ℓ} {B : Type κ} (m : ReaderM A) (f : A → ReaderM B) (bs cs : List ℕ) (a : A) (b : B)
    → Reads m bs a
    → Reads (f a) cs b
    → Reads (m >>= f) (bs ++ cs) b
Reads->>= m f bs cs a b h k rest = rw (append_assoc bs cs rest, h (cs ++ rest)) (k rest)

groups-length : (k v : ℕ) → (1 ≤ length (groups k v)) × (length (groups k v) ≤ k + 1)
unfolding groups
groups-length zero v = omega arith
groups-length (suc k) v = ground (arith, groups-length k (v / 128))

pub length-varint : (v : ℕ) → (1 ≤ length (varint v)) × (length (varint v) ≤ 10)
unfolding varint
length-varint v = groups-length 9 v

-- Every uint64 that `appendUvarint` writes is read back by `uvarint`, whatever bytes follow, and the
-- reader is left in front of those.
pub uvarint-append_uvarint :
    (v : ℕ) (rest : List ℕ)
    → v < 2 ^ 64
    → uvarint (ready (append_uvarint [] v ++ rest)) ≡ (v, ready rest)
uvarint-append_uvarint v rest h = rw (append_uvarint-varint [] v) (uvarint-Reads v h rest)
