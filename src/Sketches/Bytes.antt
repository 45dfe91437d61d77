-- ===== src/Sketches/Bytes.antt =====
-- What the writers and the reader of sketch_state.go do with a signed number and with the bins of
-- a sketch: the bytes, and what is read from them.
use Prim.Native.Nat.{bit_xor}
use trend.Prelude.{
  ℕ, zero, suc, ◌+◌, ◌-◌, ◌*◌, ◌/◌, ◌%◌, ◌^◌, ◌≤◌, ◌<◌, ◌≡◌, refl, sym, ap, ◌∙◌, arith, Bool, true,
  false,
}
use trend.Prelude.{
  List, [], ◌∷◌, ◌++◌, append-nil, append_assoc, foldl, map, length, length-map, ltb, ◌==◌,
  if◌then◌else◌, All,
}
use native.Mathlib.Nat.{pow-suc}
use trend.Prelude.Bits.{bit_xor_step}
use trend.Maps.{insert, get_or, keys, mem}
use trend.Maps.Laws.{IsDistinct}
use trend.Codec.Reader.{Reader, ready, u64, uvarint, max_int, count}
use trend.Codec.Writer.{append_uvarint, sub64}
use trend.Codec.Varint
use trend.Codec.Varint.{Reads, append_uvarint-varint, uvarint-Reads}
use trend.Sketches.Value.{sketch_max_bins}
use trend.Sketches.Encoded.{
  append_varint, append_sketch_bins_loop, append_sketch_bins, sorted_int_keys, varint,
  sketch_bins_loop, sketch_bins_each, keep_bin, sketch_bins,
}

-- All ones flip every bit.
pub bit_xor_ones :
    (k a : ℕ) → a < 2 ^ k → (bit_xor a 0 ≡ a) × (bit_xor a (2 ^ k - 1) + a + 1 ≡ 2 ^ k)
bit_xor_ones zero zero h = (refl, refl)
bit_xor_ones zero (suc a) h = absurd (omega arith)
bit_xor_ones (suc k) a h =
    let (same, flipped) = bit_xor_ones k (a / 2) (omega (arith, h, pow-suc 2 k)) in
    let half : (2 ^ suc k - 1) / 2 ≡ 2 ^ k - 1 = omega (arith, flipped, pow-suc 2 k) in
    let step = bit_xor_step a (2 ^ suc k - 1) in
    (omega (arith, same, bit_xor_step a 0), omega (arith, flipped, pow-suc 2 k, rw half at step))

-- The number that `appendVarint` writes.
abbrev pub zigzag : ℕ → ℕ
zigzag v = bit_xor (u64 (v * 2)) (if ltb v (2 ^ 63) then 0 else 2 ^ 64 - 1)

zigzag_lem :
    (v : ℕ)
    → v < 2 ^ 64
    → (zigzag v < 2 ^ 64)
      × (bit_xor (zigzag v / 2) (if zigzag v % 2 == 0 then 0 else 2 ^ 64 - 1) ≡ v)
zigzag_lem v h = ground (arith, h, bit_xor_ones 64 (u64 (v * 2)), bit_xor_ones 64 (zigzag v / 2))

pub varint-Reads : (v : ℕ) → v < 2 ^ 64 → Reads varint (Varint.varint (zigzag v)) v
unfolding varint
varint-Reads v h rest =
    let (fits, same) = zigzag_lem v h in
    rw (uvarint-Reads (zigzag v) fits rest) (ap (λ (t : ℕ). (t, ready rest)) same)

-- A bin that is written: a key, and an amount that is not 0.
pub record IsBin (e : ℕ × ℕ) : Type 0 where
  pub key_fits : e.0 < 2 ^ 64
  pub amount_fits : e.1 < 2 ^ 64
  pub occupied : 0 < e.1

-- The bins behind the first one.
unfoldable bin_bytes : ℕ → List (ℕ × ℕ) → List ℕ
bin_bytes previous [] = []
bin_bytes previous ((k, n) ∷ es) =
    Varint.varint (sub64 k previous) ++ (Varint.varint n ++ bin_bytes k es)

append_bins_loop-bin_bytes :
    (m : List (ℕ × ℕ)) (dst : List ℕ) (previous : ℕ) (ks : List ℕ)
    → append_sketch_bins_loop m dst previous ks
      ≡ dst ++ bin_bytes previous (map (λ k. (k, get_or m k 0)) ks)
unfolding append_sketch_bins_loop bin_bytes
append_bins_loop-bin_bytes m dst previous [] = sym (append-nil dst)
append_bins_loop-bin_bytes m dst previous (k ∷ ks) =
    let d = Varint.varint (sub64 k previous) in
    let a = Varint.varint (get_or m k 0) in
    let rest = bin_bytes k (map (λ k. (k, get_or m k 0)) ks) in
    rw
      (
        append_uvarint-varint dst (sub64 k previous),
        append_uvarint-varint (dst ++ d) (get_or m k 0),
      )
      (append_bins_loop-bin_bytes m ((dst ++ d) ++ a) k ks
        ∙ append_assoc (dst ++ d) a rest
        ∙ append_assoc dst d (a ++ rest))

-- What reading puts into the map.
abbrev put_all : List (ℕ × ℕ) → List (ℕ × ℕ) → List (ℕ × ℕ)
put_all m es = foldl (λ m e. insert e.0 e.1 m) m es

-- A round that reads the bin `(k, n)`.
bins_round :
    (j : ℕ) (first : Bool) (current k n : ℕ) (r r1 r2 : Reader) (m : List (ℕ × ℕ))
    → ◌≡◌ {A = ℕ × Reader}
        (if first then varint r else (u64 (current + (uvarint r).0), (uvarint r).1))
        (k, r1)
    → uvarint r1 ≡ (n, r2)
    → 0 < n
    → sketch_bins_loop keep_bin (suc j) first current r m
      ≡ sketch_bins_loop keep_bin j false k r2 (insert k n m)
unfolding sketch_bins_loop
bins_round j true current k n r r1 r2 m e f p =
    let read : varint r ≡ (k, r1) = e in ground (arith, read, f, p)
bins_round j false current k n r r1 r2 m e f p =
    let key : u64 (current + (uvarint r).0) ≡ k = ap (λ x. x.0) e in
    let left : (uvarint r).1 ≡ r1 = ap (λ x. x.1) e in ground (arith, key, left, f, p)

bins_loop-bin_bytes :
    (es : List (ℕ × ℕ)) (current : ℕ) (m : List (ℕ × ℕ)) (rest : List ℕ)
    → current < 2 ^ 64
    → All IsBin es
    → sketch_bins_loop keep_bin (length es) false current (ready (bin_bytes current es ++ rest)) m
      ≡ (put_all m es, ready rest)
unfolding bin_bytes sketch_bins_loop
bins_loop-bin_bytes [] current m rest c h = refl
bins_loop-bin_bytes ((k, n) ∷ es) current m rest c (b, h) =
    let tail = bin_bytes k es ++ rest in
    let d = sub64 k current in
    let read : uvarint (ready (bin_bytes current ((k, n) ∷ es) ++ rest))
        ≡ (d, ready (Varint.varint n ++ tail)) =
      rw
        (
          append_assoc (Varint.varint d) (Varint.varint n ++ bin_bytes k es) rest,
          append_assoc (Varint.varint n) (bin_bytes k es) rest,
        )
        (uvarint-Reads d (omega arith) (Varint.varint n ++ tail)) in
    let same : u64 (current + d) ≡ k = omega (arith, c, b.key_fits) in
    bins_round (length es) false current k n (ready (bin_bytes current ((k, n) ∷ es) ++ rest))
      (ready (Varint.varint n ++ tail)) (ready tail) m (rw (read, same) refl)
      (uvarint-Reads n b.amount_fits tail) b.occupied
    ∙ bins_loop-bin_bytes es k (insert k n m) rest b.key_fits h

-- What `sketchBins` reads back.
unfoldable pub bins_bytes : List (ℕ × ℕ) → List ℕ
unfolding bin_bytes
bins_bytes [] = Varint.varint 0
bins_bytes ((k, n) ∷ es) =
    Varint.varint (length ((k, n) ∷ es))
    ++ (Varint.varint (zigzag k) ++ (Varint.varint n ++ bin_bytes k es))

-- The bins in the order of their keys.
abbrev pub sorted_bins : List (ℕ × ℕ) → List (ℕ × ℕ)
sorted_bins m = map (λ k. (k, get_or m k 0)) (sorted_int_keys m)

pub append_sketch_bins-bins_bytes :
    (m : List (ℕ × ℕ)) (dst : List ℕ) → append_sketch_bins dst m ≡ dst ++ bins_bytes (sorted_bins m)
unfolding append_sketch_bins append_varint bins_bytes
append_sketch_bins-bins_bytes m dst =
    elim (sorted_int_keys m)
      as (λ ks.
        (let start = append_uvarint dst (length ks) in
          elim ks as (λ _. List ℕ) [
            | [] ↦ start
            | key ∷ rest ↦
                append_sketch_bins_loop m
                  (append_uvarint (append_varint start key) (get_or m key 0)) key rest
          ])
        ≡ dst ++ bins_bytes (map (λ k. (k, get_or m k 0)) ks)) [
          | [] ↦ append_uvarint-varint dst 0
          | k ∷ ks ↦
              let es = map (λ k. (k, get_or m k 0)) ks in
              let l = Varint.varint (suc (length ks)) in
              let z = Varint.varint (zigzag k) in
              let a = Varint.varint (get_or m k 0) in
              rw
                (
                  length-map {B = ℕ × ℕ} (λ (k : ℕ). (k, get_or m k 0)) ks,
                  append_uvarint-varint dst (suc (length ks)),
                  append_uvarint-varint (dst ++ l) (zigzag k),
                  append_uvarint-varint ((dst ++ l) ++ z) (get_or m k 0),
                )
                (append_bins_loop-bin_bytes m (((dst ++ l) ++ z) ++ a) k ks
                  ∙ append_assoc ((dst ++ l) ++ z) a (bin_bytes k es)
                  ∙ append_assoc (dst ++ l) z (a ++ bin_bytes k es)
                  ∙ append_assoc dst l (z ++ (a ++ bin_bytes k es)))
        ]

-- A new key goes to the end.
insert_fresh :
    (k n : ℕ) (m : List (ℕ × ℕ)) → mem k (keys m) ≡ false → insert k n m ≡ m ++ ((k, n) ∷ [])
unfolding insert
insert_fresh k n [] h = refl
insert_fresh k n ((j, a) ∷ m) h = ground (arith, h, insert_fresh k n m)

mem_later : (k n : ℕ) (m es : List (ℕ × ℕ)) → mem k (keys (m ++ ((k, n) ∷ es))) ≡ true
mem_later k n [] es = ground arith
mem_later k n ((j, a) ∷ m) es = ground (arith, mem_later k n m es)

fresh_key :
    (k n : ℕ) (m es : List (ℕ × ℕ))
    → IsDistinct (keys (m ++ ((k, n) ∷ es)))
    → mem k (keys m) ≡ false
fresh_key k n [] es h = refl
fresh_key k n ((j, a) ∷ m) es (p, h) = ground (arith, p, fresh_key k n m es h, mem_later k n m es)

put_all_append : (es m : List (ℕ × ℕ)) → IsDistinct (keys (m ++ es)) → put_all m es ≡ m ++ es
put_all_append [] m h = sym (append-nil m)
put_all_append ((k, n) ∷ es) m h =
    let after = append_assoc m ((k, n) ∷ []) es in
    rw (insert_fresh k n m (fresh_key k n m es h))
      (put_all_append es (m ++ ((k, n) ∷ [])) (rw after h) ∙ after)

count-varint :
    (n : ℕ) (rest : List ℕ)
    → n ≤ max_int
    → count (ready (Varint.varint n ++ rest)) ≡ (n, ready rest)
unfolding count
count-varint n rest h = ground (arith, h, uvarint-Reads n (omega (arith, h)) rest)

pub sketch_bins-bins_bytes :
    (es : List (ℕ × ℕ)) (rest : List ℕ)
    → length es ≤ sketch_max_bins
    → IsDistinct (keys es)
    → All IsBin es
    → sketch_bins (ready (bins_bytes es ++ rest)) ≡ (es, ready rest)
unfolding bins_bytes sketch_bins sketch_bins_each sketch_bins_loop insert
sketch_bins-bins_bytes [] rest b d h = rw (count-varint 0 rest (omega arith)) (ground arith)
sketch_bins-bins_bytes ((k, n) ∷ es) rest b d (g, h) =
    let tail = bin_bytes k es ++ rest in
    let z = Varint.varint (zigzag k) in
    let a = Varint.varint n in
    let j = suc (length es) in
    let start : count (ready (bins_bytes ((k, n) ∷ es) ++ rest)) ≡ (j, ready (z ++ (a ++ tail))) =
      rw
        (
          append_assoc (Varint.varint j) (z ++ (a ++ bin_bytes k es)) rest,
          append_assoc z (a ++ bin_bytes k es) rest,
          append_assoc a (bin_bytes k es) rest,
        )
        (count-varint j (z ++ (a ++ tail)) (omega (arith, b))) in
    let rounds =
      bins_round (length es) true 0 k n (ready (z ++ (a ++ tail))) (ready (a ++ tail)) (ready tail)
        [] (varint-Reads k g.key_fits (a ++ tail)) (uvarint-Reads n g.amount_fits tail) g.occupied
      ∙ bins_loop-bin_bytes es k (insert k n []) rest g.key_fits h
      ∙ ap (λ m. (m, ready rest)) (put_all_append es ((k, n) ∷ []) d) in
    ground (arith, start, b, rounds)
