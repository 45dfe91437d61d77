-- ===== src/Codec/Writer.antt =====
-- The writers of codec.go and block.go on numbers and columns. Each appends to `dst`.
use Prim.Native.Nat.{bit_or, bit_xor}
use trend.Prelude.{ℕ, zero, suc, ◌+◌, ◌-◌, ◌/◌, ◌%◌, ◌^◌, List, [], ◌∷◌, ◌++◌}
use trend.Prelude.{leb, if◌then◌else◌}
use trend.Float.{Float64, reverse_bits}
use trend.Codec.Reader.{u64}

-- The loop of `appendUvarint`. A uint64 has at most ten groups of seven bits, so nine rounds
-- leave nothing to shift out.
unfoldable pub append_uvarint_loop : ℕ → List ℕ → ℕ → List ℕ
append_uvarint_loop zero dst v = dst ++ (v % 256 ∷ [])
append_uvarint_loop (suc k) dst v =
    let rest = append_uvarint_loop k (dst ++ (bit_or (v % 256) 0x80 ∷ [])) (v / 128) in
    if leb 0x80 v then rest else dst ++ (v % 256 ∷ [])

unfoldable pub append_uvarint : List ℕ → ℕ → List ℕ
unfolding append_uvarint_loop
append_uvarint dst v = append_uvarint_loop 9 dst v

-- a - b on uint64.
abbrev pub sub64 : ℕ → ℕ → ℕ
sub64 a b = u64 (a + 2 ^ 64 - b)

unfoldable pub append_delta_loop : List ℕ → ℕ → List ℕ → List ℕ
append_delta_loop dst prev [] = dst
append_delta_loop dst prev (v ∷ vs) = append_delta_loop (append_uvarint dst (sub64 v prev)) v vs

unfoldable pub append_delta : List ℕ → List ℕ → List ℕ
unfolding append_delta_loop
append_delta dst column = append_delta_loop dst 0 column

unfoldable pub append_float : List ℕ → Float64 → ℕ → List ℕ × ℕ
append_float dst v prev =
    let current = reverse_bits 64 v.bits in (append_uvarint dst (bit_xor current prev), current)

unfoldable pub append_float_xor_loop : List ℕ → ℕ → List Float64 → List ℕ
unfolding append_float
append_float_xor_loop dst prev [] = dst
append_float_xor_loop dst prev (v ∷ vs) =
    let (dst', current) = append_float dst v prev in append_float_xor_loop dst' current vs

unfoldable pub append_float_xor : List ℕ → List Float64 → List ℕ
unfolding append_float_xor_loop
append_float_xor dst column = append_float_xor_loop dst 0 column
