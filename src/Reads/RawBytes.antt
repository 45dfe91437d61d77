-- ===== src/Reads/RawBytes.antt =====
-- The bytes of `appendExactValues` of sketches.go, read back as words.
use trend.Prelude.{
  ℕ, zero, suc, ◌*◌, ◌/◌, ◌%◌, ◌^◌, ◌≡◌, refl, sym, ap, ◌∙◌, arith, map, take, drop, append-nil,
  append_assoc,
}
use trend.Prelude.{List, [], ◌∷◌, ◌++◌, length, length-append}
use trend.Float.{Float64}
use trend.Sketches.Handle.{little_endian, of_little_endian, append_exact_values}

-- `n` words of eight bytes each, the lowest byte first.
abbrev pub words : ℕ → List ℕ → List ℕ
words zero bs = []
words (suc n) bs = of_little_endian (take 8 bs) ∷ words n (drop 8 bs)

length-little_endian : (n v : ℕ) → length (little_endian n v) ≡ n
unfolding little_endian
length-little_endian zero v = refl
length-little_endian (suc n) v = ap suc (length-little_endian n (v / 256))

-- The bytes of a word give it back.
of_little_endian-little_endian : (v : ℕ) → of_little_endian (little_endian 8 v) ≡ v % 2 ^ 64
unfolding little_endian of_little_endian
of_little_endian-little_endian v = omega arith

append_exact_values-append :
    (dst : List ℕ) (xs : List Float64)
    → append_exact_values dst xs ≡ dst ++ append_exact_values [] xs
unfolding append_exact_values
append_exact_values-append dst [] = sym (append-nil dst)
append_exact_values-append dst (x ∷ xs) =
    append_exact_values-append (dst ++ little_endian 8 x.bits) xs
    ∙ append_assoc dst (little_endian 8 x.bits) (append_exact_values [] xs)
    ∙ ap (λ bs. dst ++ bs) (sym (append_exact_values-append (little_endian 8 x.bits) xs))

words-little_endian :
    (n v : ℕ) (bs : List ℕ)
    → words (suc n) (little_endian 8 v ++ bs) ≡ of_little_endian (little_endian 8 v) ∷ words n bs
unfolding little_endian
words-little_endian n v bs = refl

pub words-append_exact_values :
    (xs : List Float64)
    → words (length xs) (append_exact_values [] xs) ≡ map (λ x. x.bits % 2 ^ 64) xs
unfolding append_exact_values
words-append_exact_values [] = refl
words-append_exact_values (x ∷ xs) =
    ap (words (suc (length xs))) (append_exact_values-append (little_endian 8 x.bits) xs)
    ∙ words-little_endian (length xs) x.bits (append_exact_values [] xs)
    ∙ rw (of_little_endian-little_endian x.bits, words-append_exact_values xs) refl

pub length-append_exact_values :
    (xs : List Float64) → length (append_exact_values [] xs) ≡ 8 * length xs
unfolding append_exact_values
length-append_exact_values [] = refl
length-append_exact_values (x ∷ xs) = omega (
  arith,
  ap length (append_exact_values-append (little_endian 8 x.bits) xs),
  length-append (little_endian 8 x.bits) (append_exact_values [] xs),
  length-little_endian 8 x.bits,
  length-append_exact_values xs,
)
