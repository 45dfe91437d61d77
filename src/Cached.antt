-- ===== src/Cached.antt =====
-- The read-through cache of storage/cached/cached.go, over two stores. A store is the interface of
-- store.go: its operations on a state of its own.
pub mod Coherence
pub mod Config
use trend.Prelude.{ℕ, Bool, true, false, ◌||◌, Option, none, some, List}

-- `none` is a nil slice.
abbrev pub Bytes : Type 0
Bytes = Option (List ℕ)

abbrev pub is_set {ℓ} : {A : Type ℓ} → Option A → Bool
is_set none = false
is_set (some _) = true

-- `Failure` is the type of a store's errors.
module _ (Key Failure : Type 0) where
  pub record Store (S : Type 0) : Type 0 where
    pub load : S → Key → S × (Bytes × Option Failure)
    pub update : S → Key → (Bytes → Bytes × Option Failure) → S × Option Failure
    pub delete : S → Key → S × Option Failure
    pub close : S → S × Option Failure

module _ {Key Failure P C : Type 0} (primary : Store Key Failure P)
    (cache : Option (Store Key Failure C)) where
  -- `Load` of the primary store, and of what it finds a copy in the cache.
  unfoldable pub load_primary : P × C → Key → (P × C) × (Bytes × Option Failure)
  load_primary (p, c) key =
      let (p', (out, e)) = primary.load p key in
      elim cache [
        | none ↦ ((p', c), (out, e))
        | some store ↦ elim e [
          | some e ↦ ((p', c), (out, some e))
          | none ↦ elim out [
            | none ↦ ((p', c), (none, none))
            | some bs ↦ ((p', (store.update c key (λ _. (some bs, none))).0), (some bs, none))
          ]
        ]
      ]

  unfoldable pub load : P × C → Key → (P × C) × (Bytes × Option Failure)
  unfolding load_primary
  load (p, c) key = elim cache [
    | none ↦ load_primary (p, c) key
    | some store ↦
        let (c', (out, e)) = store.load c key in
        elim (is_set e || is_set out) [
          | true ↦ ((p, c'), (out, e))
          | false ↦ load_primary (p, c') key
        ]
  ]

  unfoldable pub update : P × C → Key → (Bytes → Bytes × Option Failure) → (P × C) × Option Failure
  update (p, c) key merge =
      let (p', e) = primary.update p key merge in
      elim e [
        | some e ↦ ((p', c), some e)
        | none ↦ elim cache [
          | none ↦ ((p', c), none)
          | some store ↦ ((p', (store.delete c key).0), none)
        ]
      ]

  unfoldable pub delete : P × C → Key → (P × C) × Option Failure
  delete (p, c) key = elim cache [
    | none ↦ (let (p', e) = primary.delete p key in ((p', c), e))
    | some store ↦
        let c' = (store.delete c key).0 in let (p', e) = primary.delete p key in ((p', c'), e)
  ]

  unfoldable pub close : P × C → (P × C) × Option Failure
  close (p, c) = elim cache [
    | none ↦ (let (p', e) = primary.close p in ((p', c), e))
    | some store ↦ let c' = (store.close c).0 in let (p', e) = primary.close p in ((p', c'), e)
  ]
