-- ===== src/Codec/SketchBlock.antt =====
-- The sketch bucket blocks of block.go: byte strings behind their lengths.
use trend.Prelude.{ℕ, suc, ◌*◌, ◌^◌, ◌≤◌, ◌<◌, ◌≡◌, refl, sym, ap, ◌∙◌, arith, Option, none}
use trend.Prelude.{List, [], ◌∷◌, ◌++◌, append-nil, append_assoc, length, length-append, All}
use trend.Prelude.{take-length-append, drop-length-append}
use trend.Data.{SketchBucket, SketchData, IsU64}
use trend.Codec.Reader.{Error, Reader, ready, count, bytes, done}
use trend.Codec.Writer.{sub64}
use trend.Codec.Varint.{varint, append_uvarint-varint, uvarint-Reads, Reads, length-varint}
use trend.Codec.Columns.{sub64-lt, add_sub64}
use trend.Codec.Block.{
  append_sketch_buckets_loop, append_sketch_buckets, scan_sketch_buckets_loop, scan_sketch_buckets,
  decode_sketch_buckets, keep_bucket, sketch_entry,
}

-- An encoded sketch stays far below a megabyte.
pub record IsSketchBucket (b : SketchBucket) : Type 0 where
  pub time_fits : IsU64 b.time
  pub encoded_fits : length b.encoded < 2 ^ 20

pub count-Reads : (n : ℕ) → n < 2 ^ 63 → Reads count (varint n) n
unfolding count
count-Reads n h rest = ground (arith, uvarint-Reads n (omega arith) rest)

pub bytes-Reads : (bs : List ℕ) → Reads (bytes (length bs)) bs bs
unfolding bytes
bytes-Reads bs rest =
    ground (arith, take-length-append bs rest, drop-length-append bs rest, length-append bs rest)

unfoldable pub sketch_bucket_bytes : ℕ → List SketchBucket → List ℕ
sketch_bucket_bytes previous [] = []
sketch_bucket_bytes previous (b ∷ bs) =
    varint (sub64 b.time previous)
    ++ (varint (length b.encoded) ++ (b.encoded ++ sketch_bucket_bytes b.time bs))

append_sketch_buckets_loop-bytes :
    (previous : ℕ) (bs : List SketchBucket) (dst : List ℕ)
    → append_sketch_buckets_loop dst previous bs ≡ dst ++ sketch_bucket_bytes previous bs
unfolding append_sketch_buckets_loop sketch_bucket_bytes
append_sketch_buckets_loop-bytes previous [] dst = sym (append-nil dst)
append_sketch_buckets_loop-bytes previous (b ∷ bs) dst =
    append_sketch_buckets_loop-bytes b.time bs _ ∙ simp (append_uvarint-varint, append_assoc)

pub append_sketch_buckets-bytes :
    (dst : List ℕ) (bs : List SketchBucket)
    → append_sketch_buckets dst bs ≡ dst ++ sketch_bucket_bytes 0 bs
unfolding append_sketch_buckets
append_sketch_buckets-bytes dst bs = append_sketch_buckets_loop-bytes 0 bs dst

sketch_entry-bytes :
    (previous : ℕ) (b : SketchBucket) (tail : List ℕ)
    → IsU64 previous
    → IsSketchBucket b
    → sketch_entry previous (
        ready
          (varint (sub64 b.time previous) ++ (varint (length b.encoded) ++ (b.encoded ++ tail))))
      ≡ ((b.time, b.encoded), ready tail)
unfolding sketch_entry
sketch_entry-bytes previous b tail p v = simp (
  uvarint-Reads (sub64 b.time previous) (sub64-lt b.time previous),
  count-Reads (length b.encoded) (omega (arith, v.encoded_fits)),
  bytes-Reads b.encoded,
  add_sub64 b.time previous v.time_fits p,
)

pub scan_step {ℓ} :
    {S : Type ℓ} (yield : ℕ → List ℕ → S → S × Option Error) (n previous : ℕ) (r : Reader) (s : S)
    {t : ℕ} {block : List ℕ} {tail : List ℕ} {s' : S}
    → sketch_entry previous r ≡ ((t, block), ready tail)
    → yield t block s ≡ (s', none)
    → scan_sketch_buckets_loop yield (suc n) previous r s
      ≡ scan_sketch_buckets_loop yield n t (ready tail) s'
unfolding scan_sketch_buckets_loop
scan_step yield n previous r s e k = ground arith

scan_sketch_buckets_loop-keep :
    (previous : ℕ) (bs : List SketchBucket) (out : SketchData)
    → IsU64 previous
    → All IsSketchBucket bs
    → scan_sketch_buckets_loop keep_bucket
        (length bs)
        previous
        (ready (sketch_bucket_bytes previous bs))
        out
      ≡ (record out { buckets = out.buckets ++ bs }, none)
unfolding scan_sketch_buckets_loop sketch_bucket_bytes done
scan_sketch_buckets_loop-keep previous [] out p h =
    ap (λ t. (record out { buckets = t }, none)) (sym (append-nil out.buckets))
scan_sketch_buckets_loop-keep previous (b ∷ bs) out p (v, h) =
    let next = record out { buckets = out.buckets ++ (b ∷ []) } in
    scan_step keep_bucket (length bs) previous _ out
      (sketch_entry-bytes previous b (sketch_bucket_bytes b.time bs) p v) refl
    ∙ scan_sketch_buckets_loop-keep b.time bs next v.time_fits h
    ∙ simp append_assoc

pub decode_sketch_buckets-bytes :
    (bs : List SketchBucket) (out : SketchData)
    → All IsSketchBucket bs
    → decode_sketch_buckets (sketch_bucket_bytes 0 bs) (length bs) out
      ≡ (record out { buckets = out.buckets ++ bs }, none)
unfolding decode_sketch_buckets scan_sketch_buckets
decode_sketch_buckets-bytes bs out h = scan_sketch_buckets_loop-keep 0 bs out (omega arith) h

pub length-sketch_bucket_bytes :
    (previous : ℕ) (bs : List SketchBucket)
    → All IsSketchBucket bs
    → length (sketch_bucket_bytes previous bs) ≤ 2 ^ 21 * length bs
unfolding sketch_bucket_bytes
length-sketch_bucket_bytes previous [] h = omega arith
length-sketch_bucket_bytes previous (b ∷ bs) (v, h) =
    simp length-append (omega (arith, length-varint, length-sketch_bucket_bytes b.time bs h))
