-- ===== src/Reads/RawServed.antt =====
-- The sketches that `sketchRawRange` of sketches.go hands out.
use trend.Prelude.{
  ℕ, ◌*◌, ◌%◌, ◌^◌, ◌<◌, ◌≤◌, ◌≡◌, refl, sym, ap, ◌∙◌, arith, Bool, true, false, ◌⊎◌, inl, inr, All,
  map, ◌==◌,
}
use trend.Prelude.{List, [], ◌∷◌, length, length-append}
use trend.Float.{Float64, Arith, is_nan, less, float_min, float_max}
use trend.Codec.Segment.{Compressor}
use trend.Sketches.Value.{Math}
use trend.Sketches.Encoded.{sketch_exact}
use trend.Sketches.Handle.{Sketch, append_exact_values}
use trend.Sketches.Quantiles.{IsOrdered, less_self}
use trend.Reads.Invariant.{Ends}
use trend.Reads.Sketches.{RawState, raw_observe, raw_sketch, sketch_raw_range}
use trend.Reads.RawLaws.{sketch_raw_range-Ends}
use trend.Reads.RawBytes.{words, words-append_exact_values, length-append_exact_values}
use trend.Reads.RawExtremes.{
  IsAmong, IsBetween, IsAmong-last, min-either, max-either, IsAmong-either, widen_lem, wider,
  single_lem,
}

-- A sketch of the values `xs`: as many as it counts, whose bits, sorted, are its bytes; its extremes
-- are two of them, and numbers in order, and no value is outside them. A count of 2 ^ 64 values
-- would start again at 0, and the extremes with it.
pub record IsServed (sort : List Float64 → List Float64) (h : Sketch) (xs : List Float64)
    : Type 0 where
  pub exact_kind : h.kind ≡ sketch_exact
  pub some_count : 0 < h.count
  pub counted : h.count ≡ length xs % 2 ^ 64
  pub bytes : words (length xs) h.encoded ≡ map (λ x. x.bits % 2 ^ 64) (sort xs)
  pub all_bytes : length h.encoded ≡ 8 * length xs
  pub ordered : IsOrdered h
  pub min_among : IsAmong h.min xs
  pub max_among : IsAmong h.max xs
  pub inside : (2 ^ 64 ≤ length xs) ⊎ All (IsBetween h.min h.max) xs

is_empty : (n : ℕ) → (n ≡ 0) ⊎ (0 < n)
is_empty n = omega arith

module _ {S : Type 0} (I : S → Bool → Type 0) (s2 : Compressor) (lib : Math) (fp : Arith)
    (sort : List Float64 → List Float64) (from to span : ℕ) (yield : ℕ → Sketch → S → S × Bool)
    (sorts : (xs : List Float64) → length (sort xs) ≡ length xs)
    (keeps : (t : ℕ) (h : Sketch) (s : S) (xs : List Float64)
      → IsServed sort h xs
      → I s true
      → I (yield t h s).0 (yield t h s).1) where
  -- The variables of the read, behind the values `xs` of the current time.
  record IsHeld (st : RawState S) : Type 0 where
    min_number : is_nan st.min ≡ false
    max_number : is_nan st.max ≡ false
    in_order : less st.max st.min ≡ false
    min_among : IsAmong st.min st.exact
    max_among : IsAmong st.max st.exact
    inside : (2 ^ 64 ≤ length st.exact) ⊎ All (IsBetween st.min st.max) st.exact

  record IsRaw (st : RawState S) : Type 0 where
    counted : st.count ≡ length st.exact % 2 ^ 64
    held : 0 < st.count → IsHeld st

  -- The first value of a time, or the one at which the count starts again.
  first-IsHeld :
      (t : ℕ) (v : Float64) (st : RawState S)
      → is_nan v ≡ false
      → IsRaw st
      → st.count ≡ 0
      → IsHeld (raw_observe s2 lib fp sort from to span yield t v st)
  unfolding raw_observe
  first-IsHeld t v st n j c =
      let both = IsAmong-last st.exact v in
      rw c (record {
        min_number = n;
        max_number = n;
        in_order = less_self v;
        min_among = both;
        max_among = both;
        inside = single_lem st.exact v n (omega (arith, c, j.counted));
      })

  next-IsHeld :
      (t : ℕ) (v : Float64) (st : RawState S)
      → is_nan v ≡ false
      → IsRaw st
      → 0 < st.count
      → IsHeld (raw_observe s2 lib fp sort from to span yield t v st)
  unfolding raw_observe
  next-IsHeld t v st n j c =
      let h = j.held c in
      let (lo, hi, o) = widen_lem st.min st.max v h.min_number h.max_number h.in_order n in
      let some_seen : (st.count == 0) ≡ false = ground (arith, c) in
      rw some_seen (record {
        min_number = lo;
        max_number = hi;
        in_order = o;
        min_among =
            IsAmong-either (float_min st.min v) st.min v st.exact (min-either st.min v) h.min_among;
        max_among =
            IsAmong-either (float_max st.max v) st.max v st.exact (max-either st.max v) h.max_among;
        inside = elim h.inside [
          | inl p ↦ inl (omega (arith, p, length-append st.exact (v ∷ [])))
          | inr a ↦ inr (wider st.min st.max v st.exact h.min_number h.max_number n a)
        ];
      })

  observe-IsRaw :
      (t : ℕ) (v : Float64) (st : RawState S)
      → is_nan v ≡ false
      → IsRaw st
      → IsRaw (raw_observe s2 lib fp sort from to span yield t v st)
  observe-IsRaw t v st n j = record {
    counted = unfold raw_observe in omega (arith, j.counted, length-append st.exact (v ∷ []));
    held = λ p. elim (is_empty st.count) [
      | inl e ↦ first-IsHeld t v st n j e
      | inr q ↦ next-IsHeld t v st n j q
    ];
  }

  served :
      (st : RawState S)
      → IsRaw st
      → 0 < st.count
      → IsServed sort (raw_sketch s2 lib fp sort from to span yield st) st.exact
  served st j c =
      let h = j.held c in
      record {
        exact_kind = refl;
        some_count = c;
        counted = j.counted;
        bytes =
            ap (λ n. words n (append_exact_values [] (sort st.exact))) (sym (sorts st.exact))
            ∙ words-append_exact_values (sort st.exact);
        all_bytes = omega (arith, length-append_exact_values (sort st.exact), sorts st.exact);
        ordered = record {
          min_number = h.min_number;
          max_number = h.max_number;
          in_order = h.in_order;
        };
        min_among = h.min_among;
        max_among = h.max_among;
        inside = h.inside;
      }

  -- Let the sort keep the length, let a predicate `I` on the reader's state and on whether it wants
  -- more hold at the start, and let each call, made while the reader wants more and with a sketch of
  -- some values, establish it for the answer. Such a sketch has the count of the values modulo
  -- 2 ^ 64, which is not 0; its bytes are the bits of the sorted values, in words of eight bytes with
  -- the lowest first; its extremes are among the values, and none of them is NaN or outside the
  -- extremes, if they are fewer than 2 ^ 64. Then, whatever the bytes of a series are, `I` holds
  -- when `sketchRawRange` ends: the function is called with no other sketch, and not again once it
  -- said to stop.
  pub sketch_raw_range-keeps :
      (series : List ℕ) (s : S)
      → I s true
      → Ends I (sketch_raw_range s2 lib fp sort from to span yield series s).0
  sketch_raw_range-keeps series s h =
      sketch_raw_range-Ends I s2 lib fp sort from to span yield IsRaw observe-IsRaw
        (λ s st j. record { counted = refl; held = λ c. absurd (omega (arith, c)) })
        (λ st j c k.
          keeps st.current (raw_sketch s2 lib fp sort from to span yield st) st.s st.exact
            (served st j c) k)
        (λ s. record { counted = refl; held = λ c. absurd (omega (arith, c)) }) series s h
