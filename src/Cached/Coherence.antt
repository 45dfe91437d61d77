-- ===== src/Cached/Coherence.antt =====
-- The cached store of storage/cached/cached.go, the promises of its two stores, and coherence.
use trend.Prelude.{ℕ, ◌≡◌, arith, ◌⊎◌, true, Option, none, some, List, []}
use trend.Cached.{Bytes, is_set, Store, load_primary, load, update, delete}

module _ {Key Failure : Type 0} {S : Type 0} (store : Store Key Failure S) where
  -- What a primary store promises, with `view` for what it holds: a load changes nothing and finds
  -- what is held, an update that fails changes nothing, and one that succeeds, or a delete, changes
  -- its key alone.
  pub record IsPrimary (view : S → Key → Bytes) : Type 0 where
    pub load_view : (s : S) (key j : Key) → view (store.load s key).0 j ≡ view s j
    pub load_found :
        (s : S) (key : Key) → (store.load s key).1.1 ≡ none → (store.load s key).1.0 ≡ view s key
    pub update_other :
        (s : S) (key j : Key) (merge : Bytes → Bytes × Option Failure)
        → (j ≡ key) ⊎ (view (store.update s key merge).0 j ≡ view s j)
    pub update_failed :
        (s : S) (key j : Key) (merge : Bytes → Bytes × Option Failure)
        → is_set (store.update s key merge).1 ≡ true
        → view (store.update s key merge).0 j ≡ view s j
    pub delete_other :
        (s : S) (key j : Key) → (j ≡ key) ⊎ (view (store.delete s key).0 j ≡ view s j)

  -- What a cache promises: it may forget, and a deleted key is gone.
  pub record IsCache (view : S → Key → Bytes) : Type 0 where
    pub load_view :
        (s : S) (key j : Key)
        → (view (store.load s key).0 j ≡ none) ⊎ (view (store.load s key).0 j ≡ view s j)
    pub load_found :
        (s : S) (key : Key) → (store.load s key).1.1 ≡ none → (store.load s key).1.0 ≡ view s key
    pub update_view :
        (s : S) (key j : Key) (bs : List ℕ)
        → let s' = (store.update s key (λ _. (some bs, none))).0 in
          (view s' j ≡ none) ⊎ ((view s' j ≡ view s j) ⊎ ((j ≡ key) × (view s' j ≡ some bs)))
    pub delete_gone : (s : S) (key : Key) → view (store.delete s key).0 key ≡ none
    pub delete_view :
        (s : S) (key j : Key)
        → (view (store.delete s key).0 j ≡ none) ⊎ (view (store.delete s key).0 j ≡ view s j)

module _ {Key Failure P C : Type 0} (primary : Store Key Failure P) (cached : Store Key Failure C)
    (view : P → Key → Bytes) (copy : C → Key → Bytes) where
  abbrev Agree : P × C → Type 0
  Agree s = (j : Key) → (copy s.1 j ≡ none) ⊎ (copy s.1 j ≡ view s.0 j)

  -- What the cache holds is what the primary store holds.
  pub record IsCoherent (s : P × C) : Type 0 where
    pub holds : (j : Key) → (copy s.1 j ≡ none) ⊎ (copy s.1 j ≡ view s.0 j)

  module _ (primary_laws : IsPrimary primary view) (cache_laws : IsCache cached copy) where
    load_primary_keeps :
        (p : P) (c : C) (key : Key)
        → Agree (p, c)
        → Agree (load_primary primary (some cached) (p, c) key).0
    unfolding load_primary
    load_primary_keeps p c key h j =
        let out = (primary.load p key).1.0 in
        ground (
          arith,
          h j,
          primary_laws.load_view p key j,
          primary_laws.load_found p key,
          cache_laws.update_view c key j (elim out [ none ↦ [] | some bs ↦ bs ]),
        )

    load_primary-found :
        (p : P) (c : C) (key : Key)
        → (load_primary primary (some cached) (p, c) key).1.1 ≡ none
        → (load_primary primary (some cached) (p, c) key).1.0 ≡ view p key
    unfolding load_primary
    load_primary-found p c key h =
        let (out, e) = (primary.load p key).1 in ground (arith, h, primary_laws.load_found p key)

    after_load : (p : P) (c : C) (key : Key) → Agree (p, c) → Agree (p, (cached.load c key).0)
    after_load p c key h j = ground (arith, h j, cache_laws.load_view c key j)

    load-found :
        (p : P) (c : C) (key : Key)
        → Agree (p, c)
        → (load primary (some cached) (p, c) key).1.1 ≡ none
        → (load primary (some cached) (p, c) key).1.0 ≡ view p key
    unfolding load
    load-found p c key h e = ground (
      arith,
      e,
      h key,
      cache_laws.load_found c key,
      load_primary-found p (cached.load c key).0 key,
    )

    load_keeps :
        (p : P) (c : C) (key : Key)
        → Agree (p, c)
        → (j : Key)
        → (copy (load primary (some cached) (p, c) key).0.1 j ≡ none)
          ⊎ (copy (load primary (some cached) (p, c) key).0.1 j
              ≡ view (load primary (some cached) (p, c) key).0.0 j)
    unfolding load
    load_keeps p c key h j =
        let h' = after_load p c key h in
        ground (arith, h' j, load_primary_keeps p (cached.load c key).0 key h' j)

    found_or_failed :
        (p : P) (c : C) (key : Key)
        → Agree (p, c)
        → (is_set (load primary (some cached) (p, c) key).1.1 ≡ true)
          ⊎ ((load primary (some cached) (p, c) key).1.0 ≡ view p key)
    found_or_failed p c key h = ground (arith, load-found p c key h)

    update_keeps :
        (p : P) (c : C) (key : Key) (merge : Bytes → Bytes × Option Failure)
        → Agree (p, c)
        → Agree (update primary (some cached) (p, c) key merge).0
    unfolding update
    update_keeps p c key merge h j = ground (
      arith,
      h j,
      primary_laws.update_other p key j merge,
      primary_laws.update_failed p key j merge,
      cache_laws.delete_gone c key,
      cache_laws.delete_view c key j,
    )

    delete_keeps :
        (p : P) (c : C) (key : Key)
        → Agree (p, c)
        → Agree (delete primary (some cached) (p, c) key).0
    unfolding delete
    delete_keeps p c key h j = ground (
      arith,
      h j,
      primary_laws.delete_other p key j,
      cache_laws.delete_gone c key,
      cache_laws.delete_view c key j,
    )

    -- If the two stores keep their promises, a read keeps a coherent cache coherent, and it reports an
    -- error or gives what the primary store holds.
    pub load-IsCoherent :
        (p : P) (c : C) (key : Key)
        → IsCoherent (p, c)
        → IsCoherent (load primary (some cached) (p, c) key).0
          × ((is_set (load primary (some cached) (p, c) key).1.1 ≡ true)
              ⊎ ((load primary (some cached) (p, c) key).1.0 ≡ view p key))
    load-IsCoherent p c key h =
        (record { holds = load_keeps p c key h.holds }, found_or_failed p c key h.holds)

    -- If the two stores keep their promises, an update keeps a coherent cache coherent, whether it
    -- fails or not.
    pub update-IsCoherent :
        (p : P) (c : C) (key : Key) (merge : Bytes → Bytes × Option Failure)
        → IsCoherent (p, c)
        → IsCoherent (update primary (some cached) (p, c) key merge).0
    update-IsCoherent p c key merge h = record { holds = update_keeps p c key merge h.holds }

    -- If the two stores keep their promises, a delete keeps a coherent cache coherent, whether it
    -- fails or not.
    pub delete-IsCoherent :
        (p : P) (c : C) (key : Key)
        → IsCoherent (p, c)
        → IsCoherent (delete primary (some cached) (p, c) key).0
    delete-IsCoherent p c key h = record { holds = delete_keeps p c key h.holds }
