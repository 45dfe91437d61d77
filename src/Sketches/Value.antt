-- ===== src/Sketches/Value.antt =====
-- sketchValue of sketch_state.go: a distribution held exactly, or in bins of a logarithmic scale.
-- An int key is its two's complement word. The logarithm and the power of the package math, and
-- the rounded operations that go with them, are the parameter `Math`.
use trend.Prelude.{
  ℕ, zero, suc, ◌+◌, ◌%◌, ◌^◌, Bool, true, false, ◌&&◌, ◌||◌, not, Option, none, some,
}
use trend.Prelude.{List, [], ◌∷◌, ◌++◌, foldl, length, ltb, leb, ◌==◌, if◌then◌else◌}
use trend.Float.{Float64, Arith, is_zero, less, float_min, float_max, abs, zero_float}
use trend.Maps.{get_or, keys, remove}
use trend.Counters.{add_sum}

abbrev pub sketch_max_bins : ℕ
sketch_max_bins = 1024

-- (1 + sketchBinAlpha) / (1 - sketchBinAlpha), and one more than that, as float64.
abbrev pub sketch_gamma : Float64
sketch_gamma = record { bits = 0x3ff052bd36bbe9e4 }

abbrev pub sketch_gamma_and_one : Float64
sketch_gamma_and_one = record { bits = 0x4000295e9b5df4f2 }

pub record Math : Type 0 where
  pub log : Float64 → Float64
  pub ceil : Float64 → Float64
  pub pow : Float64 → Float64 → Float64
  pub mul : Float64 → Float64 → Float64
  pub div : Float64 → Float64 → Float64
  -- The conversions int(x) and float64(k).
  pub to_int : Float64 → ℕ
  pub of_int : ℕ → Float64

pub record SketchValue : Type 0 where
  pub count : ℕ
  pub sum : Float64
  pub min : Float64
  pub max : Float64
  -- `none` is a nil slice.
  pub exact : Option (List Float64)
  pub zero : ℕ
  pub negative : List (ℕ × ℕ)
  pub positive : List (ℕ × ℕ)

abbrev pub no_value : SketchValue
no_value = record {
  count = 0;
  sum = zero_float;
  min = zero_float;
  max = zero_float;
  exact = none;
  zero = 0;
  negative = [];
  positive = [];
}

-- The order of int on words.
abbrev pub signed : ℕ → ℕ
signed w = (w + 2 ^ 63) % 2 ^ 64

abbrev pub exact_values : SketchValue → List Float64
exact_values v = elim v.exact [ none ↦ [] | some xs ↦ xs ]

abbrev pub is_exact : SketchValue → Bool
is_exact v = elim v.exact [ none ↦ false | some xs ↦ true ]

-- `append` on a slice that may be nil.
abbrev pub append_slice : Option (List Float64) → List Float64 → Option (List Float64)
append_slice none [] = none
append_slice none (y ∷ ys) = some (y ∷ ys)
append_slice (some xs) ys = some (xs ++ ys)

unfoldable pub min_key : List (ℕ × ℕ) → ℕ × Bool
min_key m =
    foldl (λ s k. if not s.1 || ltb (signed k) (signed s.0) then (k, true) else s) (0, false)
      (keys m)

abbrev pub bins : SketchValue → ℕ
bins v = length v.negative + length v.positive

-- A round of `collapse`.
unfoldable pub collapse_step : SketchValue → SketchValue
collapse_step v =
    let (nk, has_negative) = min_key v.negative in
    let (pk, has_positive) = min_key v.positive in
    if has_negative && (not has_positive || leb (signed nk) (signed pk))
    then record v {
      zero = (v.zero + get_or v.negative nk 0) % 2 ^ 64;
      negative = remove nk v.negative;
    }
    else record v {
      zero = (v.zero + get_or v.positive pk 0) % 2 ^ 64;
      positive = remove pk v.positive;
    }

-- A round takes a bin, so that the number of bins is fuel enough.
unfoldable pub collapse_loop : ℕ → SketchValue → SketchValue
collapse_loop zero v = v
collapse_loop (suc n) v =
    let rest = collapse_loop n (collapse_step v) in if ltb sketch_max_bins (bins v) then rest else v

unfoldable pub collapse : SketchValue → SketchValue
unfolding collapse_loop
collapse v = collapse_loop (bins v) v

-- `m[k] += n` for the entries of another map.
abbrev pub add_entries : List (ℕ × ℕ) → List (ℕ × ℕ) → List (ℕ × ℕ)
add_entries m other = foldl (λ m e. add_sum m e.0 e.1) m other

module _ (fp : Arith) where
  unfoldable pub add_stats : SketchValue → Float64 → SketchValue
  add_stats v value =
      let v = if v.count == 0 then record v { min = value; max = value } else v in
      record v {
        count = (v.count + 1) % 2 ^ 64;
        sum = fp.add v.sum value;
        min = if less value v.min then value else v.min;
        max = if less v.max value then value else v.max;
      }

module _ (lib : Math) where
  abbrev pub sketch_scale : Float64
  sketch_scale = lib.div (record { bits = 0x3ff0_0000_0000_0000 }) (lib.log sketch_gamma)

  unfoldable pub bin_key : Float64 → ℕ
  bin_key value = lib.to_int (lib.ceil (lib.mul (lib.log (abs value)) sketch_scale))

  unfoldable pub sketch_bin_value : ℕ → Float64
  sketch_bin_value key =
      let two : Float64 = record { bits = 0x4000_0000_0000_0000 } in
      lib.div (lib.mul two (lib.pow sketch_gamma (lib.of_int key))) sketch_gamma_and_one

  unfoldable pub add_bin : SketchValue → Float64 → ℕ → SketchValue
  add_bin v value n =
      if is_zero value
      then record v { zero = (v.zero + n) % 2 ^ 64 }
      else if less value zero_float
      then record v { negative = add_sum v.negative (bin_key value) n }
      else record v { positive = add_sum v.positive (bin_key value) n }

  abbrev pub add_bins : SketchValue → List Float64 → SketchValue
  add_bins v values = foldl (λ v value. add_bin v value 1) v values

  unfoldable pub approximate : SketchValue → SketchValue
  approximate v = elim v.exact [
    | none ↦ v
    | some values ↦ collapse (record (add_bins v values) { exact = none })
  ]

  module _ (fp : Arith) where
    unfoldable pub add_approx : SketchValue → Float64 → SketchValue
    add_approx v value = collapse (add_bin (add_stats fp v value) value 1)

    unfoldable pub add_exact : SketchValue → Float64 → SketchValue
    unfolding add_approx
    add_exact v value =
        if ltb 0 v.count && not (is_exact v)
        then add_approx v value
        else record (add_stats fp v value) { exact = append_slice v.exact (value ∷ []) }

    -- `mergeBytes` behind `decodeSketch`.
    unfoldable pub merge_value : SketchValue → SketchValue → SketchValue
    merge_value v other =
        if other.count == 0
        then v
        else (let v' : SketchValue = record v {
          count = (v.count + other.count) % 2 ^ 64;
          sum = fp.add v.sum other.sum;
          min = if v.count == 0 then other.min else float_min v.min other.min;
          max = if v.count == 0 then other.max else float_max v.max other.max;
        } in
            if is_exact other && (v.count == 0 || is_exact v)
            then record v' { exact = append_slice v.exact (exact_values other) }
            else (let a = approximate v' in
                let b = approximate other in
                collapse (record a {
                  zero = (a.zero + b.zero) % 2 ^ 64;
                  negative = add_entries a.negative b.negative;
                  positive = add_entries a.positive b.positive;
                })))
