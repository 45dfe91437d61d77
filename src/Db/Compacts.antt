-- ===== src/Db/Compacts.antt =====
-- What `compact` of compact.go does to the store.
use trend.Prelude.{
  if◌then◌else◌, ℕ, ◌≡◌, arith, ◌⊎◌, Bool, true, false, Option, none, some, ◌&&◌, not,
}
use trend.Cached.{Bytes, Store, is_set}
use trend.Cached.Coherence.{IsPrimary}
use trend.Buffer.{Key, same_key}
use trend.Runtime.{Runtime}
use trend.Db.{Failure, Db, Leaser, lease_ttl, is_positive, lease_key, compact_bytes, compact}
use trend.Db.Flush.{IsUpdating, same_key_refl, same_key-eq}

module _ {X S : Type 0} (go : Runtime) (store : Store Key (Failure X) S)
    (view : S → Key → Bytes) where
  -- A lease is beside what is stored.
  pub record IsLeaser (l : Leaser X S) : Type 0 where
    pub lease_view : (s : S) (key j : Key) (ttl : ℕ) → view (l.lease s key ttl).0 j ≡ view s j
    pub release_view : (s : S) (key j : Key) → view (l.release s key).0 j ≡ view s j

  abbrev pub IsLeasing : Option (Leaser X S) → Type 0
  IsLeasing none = Unit
  IsLeasing (some l) = IsLeaser l

  -- Whether the compaction of a key may go on, and the store that it then works on.
  abbrev pub is_granted : Option (Leaser X S) → S → Key → Bool
  is_granted none s key = true
  is_granted (some l) s key =
      let (locked, e) = (l.lease s (lease_key key) lease_ttl).1 in not (is_set e) && locked

  abbrev pub leased : Option (Leaser X S) → S → Key → S
  leased none s key = s
  leased (some l) s key = (l.lease s (lease_key key) lease_ttl).0

  abbrev pub goes_on : Option (Leaser X S) → Db S → Key → Bool
  goes_on lease db key =
      (is_positive db.compactor.after && is_positive db.compactor.span)
      && is_granted lease db.store key

  -- What an update that answers with `e` leaves at a key: what the closure made of it at the key of
  -- the update, where it answers without an error, and else what was there.
  abbrev pub IsUpdate :
      Key → Key → Bytes → Bytes → Bytes × Option (Failure X) → Option (Failure X) → Type 0
  IsUpdate key j old new out e =
      ((e ≡ none) × (out.1 ≡ none) × (new ≡ (if same_key key j then out.0 else old)))
      ⊎ ((is_set e ≡ true) × (new ≡ old))

  module _ (laws : IsPrimary store view) (updating : IsUpdating go store view) where
    update-IsUpdate :
        (s : S) (key j : Key) (f : Bytes → Bytes × Option (Failure X))
        → IsUpdate key j
            (view s j)
            (view (store.update s key f).0 j)
            (f (view s key))
            (store.update s key f).1
    update-IsUpdate s key j f =
        let done : (store.update s key f).1 ≡ none
            → same_key key j ≡ true
            → view (store.update s key f).0 j ≡ (f (view s key)).0 =
          λ h e. rw (← same_key-eq key j e) (updating.update_done s key f h).0 in
        let well : (store.update s key f).1 ≡ none → (f (view s key)).1 ≡ none =
          λ h. (updating.update_done s key f h).1 in
        let self : (j ≡ key) → same_key key j ≡ true = λ e. rw e (same_key_refl key) in
        ground (arith, done, well, self, laws.update_other s key j f, laws.update_failed s key j f)

    module _ (seconds : ℕ → ℕ) where
      -- Where compaction is off, or the lease is refused, a compaction leaves every key as it was.
      -- Else it answers with what the store answers to the update, made behind the lease: without an
      -- error its key then has the compacted series and every other key is as it was, and with an
      -- error every key is.
      pub compact-view :
          (lease : Option (Leaser X S)) (db : Db S) (key j : Key) (cutoff : ℕ)
          → IsLeasing lease
          → let f = compact_bytes {X = X} go seconds db.compactor cutoff in
            let (db', e) = compact go store lease seconds db key cutoff in
            ((goes_on lease db key ≡ false) × (view db'.store j ≡ view db.store j))
            ⊎ ((goes_on lease db key ≡ true)
                × (e ≡ (store.update (leased lease db.store key) key f).1)
                × IsUpdate key j (view db.store j) (view db'.store j) (f (view db.store key)) e)
      unfolding compact
      compact-view none db key j cutoff h =
          let f = compact_bytes {X = X} go seconds db.compactor cutoff in
          ground (arith, update-IsUpdate db.store key j f)
      compact-view (some l) db key j cutoff h =
          let f = compact_bytes {X = X} go seconds db.compactor cutoff in
          let s = (l.lease db.store (lease_key key) lease_ttl).0 in
          let s' = (store.update s key f).0 in
          let same : (i : Key) → view s i ≡ view db.store i =
            λ i. h.lease_view db.store (lease_key key) i lease_ttl in
          let after : view (l.release s' (lease_key key)).0 j ≡ view s' j =
            h.release_view s' (lease_key key) j in
          let updated : IsUpdate key j (view db.store j) (view s' j) (f (view db.store key))
              (store.update s key f).1 =
            rw (← same j, ← same key) (update-IsUpdate s key j f) in
          ground (arith, same j, after, updated)
