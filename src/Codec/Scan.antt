-- ===== src/Codec/Scan.antt =====
-- `scan` over segments that `appendSegment` wrote.
use trend.Prelude.{ℕ, suc, ◌^◌, ◌≤◌, ◌<◌, ◌≡◌, refl, ◌∙◌, arith, Bool, true}
use trend.Prelude.{Option, none}
use trend.Prelude.{List, [], ◌∷◌, ◌++◌, append_assoc, length, length-append}
use trend.Data.{IsU64}
use trend.Codec.Reader.{Error, Reader, ready, byte}
use trend.Codec.Varint.{varint, append_uvarint-varint, uvarint-Reads}
use trend.Codec.SketchBlock.{count-Reads, bytes-Reads}
use trend.Codec.Segment.{
  segment_size, Compressor, IsLossless, Segment, read_segment, is_kind, check_segment, scan_loop,
  append_segment, decode_into,
}
use trend.Codec.Shrink.{scan_loop_fuel}

-- What `appendSegment` is given when it writes a segment that will be read again.
pub record IsBlock (kind from to n : ℕ) (raw : List ℕ) : Type 0 where
  pub known : is_kind kind ≡ true
  pub in_order : from ≤ to
  pub to_fits : IsU64 to
  pub not_empty : 0 < n
  pub small : n ≤ segment_size
  pub raw_fits : length raw < 2 ^ 32

module _ (s2 : Compressor) where
  abbrev pub segment_of : ℕ → ℕ → ℕ → ℕ → List ℕ → Segment
  segment_of kind from to n raw = record {
    kind = kind;
    from = from;
    to = to;
    count = n;
    raw_len = length raw;
    block = s2.encode raw;
  }

  -- A segment behind its kind, and the whole.
  segment_tail : ℕ → ℕ → ℕ → List ℕ → List ℕ
  segment_tail from to n raw =
      varint from
      ++ (varint to
          ++ (varint n
              ++ (varint (length raw) ++ (varint (length (s2.encode raw)) ++ s2.encode raw))))

  unfoldable pub segment_bytes : ℕ → ℕ → ℕ → ℕ → List ℕ → List ℕ
  unfolding segment_tail
  segment_bytes kind from to n raw = kind ∷ segment_tail from to n raw

  pub append_segment-bytes :
      (dst : List ℕ) (kind from to n : ℕ) (raw : List ℕ)
      → append_segment s2 dst kind from to n raw ≡ dst ++ segment_bytes kind from to n raw
  unfolding append_segment segment_bytes
  append_segment-bytes dst kind from to n raw = simp (append_uvarint-varint, append_assoc)

  byte-cons : (b : ℕ) (bs : List ℕ) → byte (ready (b ∷ bs)) ≡ (b, ready bs)
  unfolding byte
  byte-cons b bs = refl

  read_segment-bytes :
      (kind from to n : ℕ) (raw rest : List ℕ)
      → IsLossless s2
      → IsBlock kind from to n raw
      → read_segment (ready (segment_bytes kind from to n raw ++ rest))
        ≡ (segment_of kind from to n raw, ready rest)
  unfolding read_segment segment_bytes
  read_segment-bytes kind from to n raw rest lossless v = simp (
    append_assoc,
    byte-cons,
    uvarint-Reads from (omega arith),
    uvarint-Reads to v.to_fits,
    count-Reads n (omega arith),
    count-Reads (length raw) (omega arith),
    count-Reads (length (s2.encode raw)) (omega (arith, lossless.encode-length raw v.raw_fits)),
    bytes-Reads (s2.encode raw),
  )

  check_segment-none :
      (kind from to n : ℕ) (raw : List ℕ)
      → IsBlock kind from to n raw
      → check_segment (segment_of kind from to n raw) ≡ none
  unfolding check_segment
  check_segment-none kind from to n raw v = rw v.known (ground arith)

  pub decode_into-segment_of :
      (kind from to n : ℕ) (raw : List ℕ)
      → IsLossless s2
      → length raw < 2 ^ 32
      → decode_into s2 (segment_of kind from to n raw) ≡ (raw, none)
  unfolding decode_into
  decode_into-segment_of kind from to n raw lossless h =
      ground (arith, lossless.decode-encode raw h)

module _ {ℓ} {S : Type ℓ} (yield : Segment → S → S × Bool) where
  -- The loop with the fuel that `scan` gives it.
  unfoldable pub scan_from : List ℕ → S → S × Option Error
  scan_from bs s = scan_loop yield (length bs) (ready bs) s

  -- `bs` scans as segments that take the state from `s` to `s'`, whatever follows.
  abbrev pub Scans : List ℕ → S → S → Type ℓ
  Scans bs s s' = (rest : List ℕ) → scan_from (bs ++ rest) s ≡ scan_from rest s'

  pub scan_from-nil : (s : S) → scan_from [] s ≡ (s, none)
  unfolding scan_from scan_loop
  scan_from-nil s = refl

  pub Scans-nil : (s : S) → Scans [] s s
  Scans-nil s rest = refl

  pub Scans-append :
      (bs cs : List ℕ) (s t u : S) → Scans bs s t → Scans cs t u → Scans (bs ++ cs) s u
  Scans-append bs cs s t u h k rest = rw (append_assoc bs cs rest) (h (cs ++ rest) ∙ k rest)

  pub scan_loop_step :
      (n : ℕ) (b : ℕ) (bs : List ℕ) (s : S) {seg : Segment} {r' : Reader} {s' : S}
      → read_segment (ready (b ∷ bs)) ≡ (seg, r')
      → r'.err ≡ none
      → check_segment seg ≡ none
      → yield seg s ≡ (s', true)
      → scan_loop yield (suc n) (ready (b ∷ bs)) s ≡ scan_loop yield n r' s'
  unfolding scan_loop
  scan_loop_step n b bs s e f g h = ground arith

  pub Scans-segment :
      (s2 : Compressor) (kind from to n : ℕ) (raw : List ℕ) (s s' : S)
      → IsLossless s2
      → IsBlock kind from to n raw
      → yield (segment_of s2 kind from to n raw) s ≡ (s', true)
      → Scans (segment_bytes s2 kind from to n raw) s s'
  unfolding scan_from segment_bytes
  Scans-segment s2 kind from to n raw s s' lossless v h rest =
      let tail : List ℕ = segment_tail s2 from to n raw ++ rest in
      scan_loop_step (length tail) kind tail s
        (read_segment-bytes s2 kind from to n raw rest lossless v) refl
        (check_segment-none s2 kind from to n raw v) h
      ∙ scan_loop_fuel yield (length tail) (length rest) (ready rest) s'
          (omega (arith, length-append (segment_tail s2 from to n raw) rest)) (omega arith)
