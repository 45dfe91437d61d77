-- ===== src/Db/Loads.antt =====
-- What `load` of db.go shows: the stored series with the writes that wait in the buffer.
use trend.Prelude.{ℕ, ◌≡◌, ◌≢◌, refl, ap, ◌∙◌, arith, ◌⊎◌, inl, inr, false, Option, none, some}
use trend.Prelude.{List, [], ◌∷◌}
use trend.Data.{Pending}
use trend.Codec.Segment.{IsLossless}
use trend.Codec.Series.{Result, ok, pending, version_ok}
use trend.Codec.RoundTrip.{IsStorable, concat}
use trend.Codec.Extend.{scan_of_pending}
use trend.Cached.{Bytes, Store}
use trend.Cached.Coherence.{IsPrimary}
use trend.Buffer.{Key, Buffer, find}
use trend.State.{count_pending, merge_panics, merge_pending}
use trend.Runtime.{Runtime}
use trend.Append.Laws.{marshal_merged, marshal-merge}
use trend.Append.Loads.{IsBehind, IsMerged, Loads, marshal_merged-Loads, append_series-loads}
use trend.Db.{
  Failure, Db, series_of, bytes_of, marshal, written, merged_series, load_raw, load_tail, load,
  flush,
}
use trend.Db.Flush.{AreDistinct, IsUpdating, buffered, flush-stores}

module _ (go : Runtime) (lossless : IsLossless go.s2) where
  version_ok_of_pending : (s : List ℕ) (q : Pending) → pending go.s2 s ≡ ok q → version_ok s ≡ none
  unfolding version_ok
  version_ok_of_pending [] q h = refl
  version_ok_of_pending (v ∷ bs) q h = ground (arith, scan_of_pending go.s2 v bs q h)

  -- `Marshal` of a merge.
  marshal-Loads :
      (q tail : Pending)
      → IsStorable (merge_pending go q tail)
      → Loads go lossless (marshal go (merge_pending go q tail)) (merge_pending go q tail)
  marshal-Loads q tail v =
      let m = merge_pending go q tail in
      let (bs, e, k) = marshal_merged-Loads go lossless q tail v in
      let same : marshal go m ≡ marshal_merged go m =
        ap (λ (o : Option (Result (List ℕ))). elim o [ some r ↦ r | none ↦ ok [] ])
          (marshal-merge go 1 q tail) in
      (bs, same ∙ e, k)

  module _ {X S : Type 0} (store : Store Key (Failure X) S) (view : S → Key → Bytes)
      (laws : IsPrimary store view) where
    load-stored :
        (db : Db S) (key : Key)
        → (store.load db.store key).1.1 ≡ none
        → (load_raw store db key).1 ≡ (series_of (view db.store key), none)
    unfolding load_raw
    load-stored db key h = ground (arith, h, laws.load_found db.store key h)

    -- A load of a key that the buffer holds nothing of gives the stored series.
    load-plain :
        (db : Db S) (key : Key) (q : Pending)
        → (store.load db.store key).1.1 ≡ none
        → pending go.s2 (series_of (view db.store key)) ≡ ok q
        → buffered go store view db key ≡ none
        → (load go store db key).1 ≡ (series_of (view db.store key), none)
    unfolding load load_raw
    load-plain db key q h p b = ground (
      arith,
      h,
      b,
      laws.load_found db.store key h,
      version_ok_of_pending (series_of (view db.store key)) q p,
    )

    load_with_tail :
        (db : Db S) (key : Key) (q tail : Pending)
        → (store.load db.store key).1.1 ≡ none
        → pending go.s2 (series_of (view db.store key)) ≡ ok q
        → buffered go store view db key ≡ some tail
        → (load go store db key).1 ≡ load_tail go (series_of (view db.store key)) tail
    unfolding load load_raw
    load_with_tail db key q tail h p b = ground (
      arith,
      h,
      b,
      laws.load_found db.store key h,
      version_ok_of_pending (series_of (view db.store key)) q p,
    )

    -- With a lossless compressor and a store that keeps its promises, let the stored series of a key
    -- load as `q`, let the buffer hold a tail for it, let their merge be storable, and let no stored
    -- sketch make the merge panic. Then, where the store's load succeeds, so does `load` of the
    -- database, with bytes that load as the merge.
    pub load-tail :
        (db : Db S) (key : Key) (q tail : Pending)
        → (store.load db.store key).1.1 ≡ none
        → pending go.s2 (series_of (view db.store key)) ≡ ok q
        → buffered go store view db key ≡ some tail
        → IsStorable (merge_pending go q tail)
        → merge_panics q tail ≡ false
        → (bs : List ℕ) × ((load go store db key).1 ≡ (bs, none))
          × (pending go.s2 bs ≡ ok (merge_pending go q tail))
    unfolding load_tail
    load-tail db key q tail h p b v n =
        let (bs, e, k) = marshal-Loads q tail v in
        (bs, load_with_tail db key q tail h p b ∙ ground (arith, p, n, e), k)

    -- `bs` loads as `q` with the delta behind it, where it goes behind `s`, and else as the merge.
    abbrev pub Holds : List ℕ → List ℕ → Pending → Pending → Type 0
    Holds s bs q delta =
        (IsMerged go s delta × (pending go.s2 bs ≡ ok (merge_pending go q delta)))
        ⊎ (IsBehind go s delta × (pending go.s2 bs ≡ ok (concat q delta)))

    series_of-bytes_of : (bs : List ℕ) → series_of (bytes_of bs) ≡ bs
    series_of-bytes_of [] = refl
    series_of-bytes_of (b ∷ bs) = refl

    -- What is stored behind a flush.
    stored_merge :
        (old : Bytes) (q delta : Pending)
        → pending go.s2 (series_of old) ≡ ok q
        → IsStorable delta
        → IsStorable (merge_pending go q delta)
        → count_pending delta ≢ 0
        → merge_panics q delta ≡ false
        → Holds (series_of old) (series_of (merged_series {X = X} go delta old).0) q delta
    unfolding merged_series
    stored_merge old q delta p v w c n =
        let (bs, e, k) = append_series-loads go lossless (series_of old) q delta p v w c n in
        let same : series_of (merged_series {X = X} go delta old).0 ≡ bs =
          ap
            (λ (o : Option (Result (List ℕ))).
              series_of (written {X = X} go (elim o [ some r ↦ r | none ↦ ok [] ])).0)
            e
          ∙ series_of-bytes_of bs in
        rw same k

    loads_of_Holds :
        (old s : List ℕ) (q delta : Pending)
        → Holds old s q delta
        → (p : Pending) × (pending go.s2 s ≡ ok p)
    loads_of_Holds old s q delta (inl (_, e)) = (merge_pending go q delta, e)
    loads_of_Holds old s q delta (inr (_, e)) = (concat q delta, e)

    module _ (updating : IsUpdating go store view) where
      -- With a lossless compressor and a store that keeps its promises, let the stored series of a
      -- key load as `q`, let the buffer hold a delta for it that is not empty, let it and its merge
      -- into `q` be storable, and let no stored sketch make that merge panic. Then, behind a flush
      -- without an error and where the store's load succeeds, `load` gives bytes that load as `q`
      -- with the delta behind it, where its columns are in order and it has at least 1024 entries,
      -- all behind the stored series, or there was no series, and else as the merge.
      pub load-flush :
          (db : Db S) (b : Buffer) (key : Key) (q delta : Pending)
          → db.buffer ≡ some b
          → AreDistinct b.items
          → find key b.items ≡ some delta
          → (flush go store db).1 ≡ none
          → (store.load (flush go store db).0.store key).1.1 ≡ none
          → pending go.s2 (series_of (view db.store key)) ≡ ok q
          → IsStorable delta
          → IsStorable (merge_pending go q delta)
          → count_pending delta ≢ 0
          → merge_panics q delta ≡ false
          → (bs : List ℕ) × ((load go store (flush go store db).0 key).1 ≡ (bs, none))
            × Holds (series_of (view db.store key)) bs q delta
      load-flush db b key q delta e d f h l p v w c n =
          let (stored, empty) = flush-stores go store view laws updating db b key e d h in
          let db' = (flush go store db).0 in
          let s = series_of (view db'.store key) in
          let old = series_of (view db.store key) in
          let held : Holds old s q delta =
            rw (stored, f) (stored_merge (view db.store key) q delta p v w c n) in
          let (r, k) = loads_of_Holds old s q delta held in
          (s, load-plain db' key r l k empty, held)
