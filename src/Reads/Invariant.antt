-- ===== src/Reads/Invariant.antt =====
-- Invariants of `scan` of codec.go, on the state of the closure that it calls.
use trend.Prelude.{
  ℕ, zero, suc, ◌⊎◌, inl, inr, arith, Bool, true, false, Option, List, [], ◌∷◌, length,
}
use trend.Codec.Reader.{Error, Reader, ready}
use trend.Codec.Segment.{Compressor, Segment, read_segment, scan_loop, scan, decode_into}
use trend.Reads.{visit_segment}

module _ {S : Type 0} (I : S → Bool → Type 0) where
  -- `I s more` holds of a state and of whether the scan goes on from it.
  abbrev pub Keeps : (Segment → S → S × Bool) → Type 0
  Keeps yield = (seg : Segment) (s : S) → I s true → I (yield seg s).0 (yield seg s).1

  abbrev pub Ends : S → Type 0
  Ends s = I s true ⊎ I s false

  Ends-both : (s : S) (b : Bool) → I s b → Ends s
  Ends-both s true h = inl h
  Ends-both s false h = inr h

  module _ (yield : Segment → S → S × Bool) (k : Keeps yield) where
    scan_round :
        (n : ℕ) (r : Reader) (s : S)
        → I s true
        → ((r' : Reader) (s' : S) → I s' true → Ends (scan_loop yield n r' s').0)
        → Ends (scan_loop yield (suc n) r s).0
    unfolding scan_loop
    scan_round n r s h next =
        let seg : Segment = (read_segment r).0 in
        ground (arith, k seg s h, next (read_segment r).1 (yield seg s).0)

    scan_loop-Ends : (n : ℕ) (r : Reader) (s : S) → I s true → Ends (scan_loop yield n r s).0
    unfolding scan_loop
    scan_loop-Ends zero r s h = inl h
    scan_loop-Ends (suc n) r s h = scan_round n r s h (scan_loop-Ends n)

    pub scan-Ends : (bs : List ℕ) (s : S) → I s true → Ends (scan yield bs s).0
    unfolding scan
    scan-Ends [] s h = inl h
    scan-Ends (v ∷ bs) s h = ground (arith, scan_loop-Ends (length bs) (ready bs) s h)

module _ {S : Type 0} (I : S → Bool → Type 0) where
  -- The closures of the reads stop with an error of their own, too: the reader's state is then as
  -- it was while the scan went on.
  abbrev pub OfReader : S × Option Error → Bool → Type 0
  OfReader st true = I st.0 true
  OfReader st false = Ends I st.0

  abbrev pub Visits : {Rows : Type 0} → (Rows → S → S × Bool) → Type 0
  Visits {Rows} visit = (rows : Rows) (s : S) → I s true → I (visit rows s).0 (visit rows s).1

  OfReader-both : (s : S) (e : Option Error) (b : Bool) → I s b → OfReader (s, e) b
  OfReader-both s e true h = h
  OfReader-both s e false h = inr h

  pub visit_segment-Keeps :
      (s2 : Compressor) {Rows : Type 0} (decode : List ℕ → ℕ → Rows × Option Error)
      (visit : Rows → S → S × Bool) (from to : ℕ) (seg : Segment) (st : S × Option Error)
      → Visits visit
      → I st.0 true
      → OfReader
          (visit_segment s2 decode visit from to seg st).0
          (visit_segment s2 decode visit from to seg st).1
  unfolding visit_segment
  visit_segment-Keeps s2 decode visit from to seg st k h =
      let rows = (decode (decode_into s2 seg).0 seg.count).0 in
      let seen = visit rows st.0 in ground (arith, k rows st.0 h, OfReader-both seen.0 st.1 seen.1)

  pub Ends-of : (st : S × Option Error) → Ends OfReader st → Ends I st.0
  Ends-of st (inl h) = inl h
  Ends-of st (inr h) = h
