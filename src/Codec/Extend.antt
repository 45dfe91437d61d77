-- ===== src/Codec/Extend.antt =====
-- `appendTo` of codec.go on a series that is not empty.
use trend.Prelude.{ℕ, zero, suc, ◌≤◌, ◌≡◌, ◌≢◌, refl, sym, ap, ◌∙◌, arith, Option, none}
use trend.Prelude.{true, false, List, [], ◌∷◌, ◌++◌, append-nil, length, length-append}
use trend.Data.{Pending, no_pending}
use trend.Codec.Reader.{Error, Reader, ready}
use trend.Codec.Segment.{
  version, Compressor, IsLossless, Segment, read_segment, check_segment, scan_loop, scan,
}
use trend.Codec.Series.{Result, ok, append_segments, append_to, pending_yield, pending}
use trend.Codec.Shrink.{scan_loop_fuel, read_segment-shrinks}
use trend.Codec.Scan.{Scans, scan_from, scan_from-nil, scan_loop_step}
use trend.Codec.Local.{behind, read_segment-IsLocal}
use trend.Codec.RoundTrip.{
  IsStorable, concat, append_segments-Writes, scan-version, pending_of_scan, pending-append_to,
}

module _ (s2 : Compressor) where
  abbrev pub Decoded : Type 0
  Decoded = Pending × Option Error

  -- The closure stops the scan only with an error.
  pub stops_with_error :
      (seg : Segment) (t : Decoded)
      → (pending_yield s2 seg t).1 ≡ false
      → (pending_yield s2 seg t).0.1 ≢ none
  unfolding pending_yield
  stops_with_error seg (out, e) h = ground arith

  -- What a round of a scan that ends well did.
  record Round (n : ℕ) (r : Reader) (t : Decoded) (result : Decoded × Option Error) : Type 0 where
    read_well : (read_segment r).1.err ≡ none
    checked : check_segment (read_segment r).0 ≡ none
    goes_on : (pending_yield s2 (read_segment r).0 t).1 ≡ true
    then :
        scan_loop (pending_yield s2) n (read_segment r).1 (pending_yield s2 (read_segment r).0 t).0
        ≡ result

  round :
      (n b : ℕ) (bs : List ℕ) (t : Decoded) (q : Pending)
      → scan_loop (pending_yield s2) (suc n) (ready (b ∷ bs)) t ≡ ((q, none), none)
      → Round n (ready (b ∷ bs)) t ((q, none), none)
  unfolding scan_loop
  round n b bs t q h = ground (arith, stops_with_error (read_segment (ready (b ∷ bs))).0 t)

  -- A scan that ends well goes on with what is added behind its input.
  scan_loop-Scans :
      (n : ℕ) (bs : List ℕ) (t : Decoded) (q : Pending)
      → length bs ≤ n
      → scan_loop (pending_yield s2) n (ready bs) t ≡ ((q, none), none)
      → Scans (pending_yield s2) bs t (q, none)
  unfolding scan_loop scan_from
  scan_loop-Scans zero [] t q l h rest = ap (λ x. scan_from (pending_yield s2) rest x.0) h
  scan_loop-Scans (suc n) [] t q l h rest = ap (λ x. scan_from (pending_yield s2) rest x.0) h
  scan_loop-Scans zero (b ∷ bs) t q l h rest = absurd (omega arith)
  scan_loop-Scans (suc n) (b ∷ bs) t q l h rest =
      let w = round n b bs t q h in
      let seg : Segment = (read_segment (ready (b ∷ bs))).0 in
      let r : Reader = (read_segment (ready (b ∷ bs))).1 in
      let t' : Decoded = (pending_yield s2 seg t).0 in
      let shorter = read_segment-shrinks (ready (b ∷ bs)) refl (omega arith) in
      let no_error : r ≡ ready r.input = λ i. record { input = r.input; err = w.read_well i } in
      let longer : behind r rest ≡ ready (r.input ++ rest) =
        λ i. record { input = r.input ++ rest; err = w.read_well i } in
      scan_loop_step (pending_yield s2) (length (bs ++ rest)) b (bs ++ rest) t
        (read_segment-IsLocal.local (ready (b ∷ bs)) rest w.read_well) w.read_well w.checked
        (λ i. (t', w.goes_on i))
      ∙ scan_loop_fuel (pending_yield s2) (length (bs ++ rest)) (length (r.input ++ rest))
          (behind r rest) t'
          (omega (arith, length-append bs rest, length-append r.input rest, shorter)) (omega arith)
      ∙ ap (λ x. scan_loop (pending_yield s2) (length (r.input ++ rest)) x t') longer
      ∙ scan_loop-Scans n r.input t' q (omega (arith, shorter))
          (sym (ap (λ x. scan_loop (pending_yield s2) n x t') no_error) ∙ w.then) rest

  pub scan_of_pending :
      (v : ℕ) (bs : List ℕ) (q : Pending)
      → pending s2 (v ∷ bs) ≡ ok q
      → (v ≡ version)
        × (scan_loop (pending_yield s2) (length bs) (ready bs) (no_pending, none)
            ≡ ((q, none), none))
  unfolding pending scan
  scan_of_pending v bs q h = ground arith

  append_to-cons :
      (p : Pending) (bs : List ℕ)
      → append_to s2 p (version ∷ bs) ≡ ok (append_segments s2 (version ∷ bs) p)
  unfolding append_to
  append_to-cons p bs = refl

  pub pending-nil : pending s2 [] ≡ ok no_pending
  unfolding pending scan
  pending-nil = refl

  pub ok-injective : (a b : Pending) → ◌≡◌ {A = Result Pending} (ok a) (ok b) → a ≡ b
  ok-injective a b h = cc

module _ (s2 : Compressor) (lossless : IsLossless s2) (p : Pending) (v : IsStorable p) where
  extend-cons :
      (bs : List ℕ) (q : Pending)
      → scan_loop (pending_yield s2) (length bs) (ready bs) (no_pending, none) ≡ ((q, none), none)
      → pending s2 (append_segments s2 (version ∷ bs) p) ≡ ok (concat q p)
  extend-cons bs q h =
      let (cs, e, k) = append_segments-Writes s2 lossless p (version ∷ bs) q v in
      pending_of_scan s2 (append_segments s2 (version ∷ bs) p) (
        ap (λ t. scan (pending_yield s2) t (no_pending, none)) e
        ∙ scan-version s2 (bs ++ cs) (no_pending, none)
        ∙ scan_loop-Scans s2 (length bs) bs (no_pending, none) q (omega arith) h cs
        ∙ (rw append-nil at (k []))
        ∙ scan_from-nil (pending_yield s2) (concat q p, none))

  -- With a lossless compressor, if a stored series loads as `q`, then `appendTo` writes a storable
  -- state behind it without an error, and the result loads as `q` with the columns and buckets of
  -- that state behind its own.
  pub pending-append_to_series :
      (s : List ℕ) (q : Pending)
      → pending s2 s ≡ ok q
      → (bs : List ℕ) × (append_to s2 p s ≡ ok bs) × (pending s2 bs ≡ ok (concat q p))
  unfolding concat
  pending-append_to_series [] q h =
      let (bs, e, k) = pending-append_to s2 lossless p v in
      let same : no_pending ≡ q = ok-injective s2 no_pending q (sym (pending-nil s2) ∙ h) in
      (bs, e, rw (← same) k)
  pending-append_to_series (x ∷ bs) q h =
      let (e, k) = scan_of_pending s2 x bs q h in
      rw e (append_segments s2 (version ∷ bs) p, append_to-cons s2 p bs, extend-cons bs q k)
