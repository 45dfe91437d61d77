-- ===== src/Db/Flush.antt =====
-- What `Flush` of db.go does to the store and to the buffer.
use trend.Prelude.{◌≡◌, refl, ap₂, arith, true, Option, none, some}
use trend.Prelude.{List, [], ◌∷◌, if◌then◌else◌}
use trend.Data.{Pending}
use trend.Cached.{Bytes, Store, is_set}
use trend.Cached.Coherence.{IsPrimary}
use trend.Buffer.{Key, same_key, find, Buffer, clone, flush_items, recycle}
use trend.Runtime.{Runtime}
use trend.Db.{Failure, Db, merged_series, merge, recycled, flush_loop, flush}

-- No key stands twice.
abbrev pub AreDistinct : List (Key × Pending) → Type 0
AreDistinct [] = Unit
AreDistinct ((key, p) ∷ m) = (find key m ≡ none) × AreDistinct m

pub same_key_refl : (key : Key) → same_key key key ≡ true
same_key_refl [] = refl
same_key_refl (x ∷ xs) = ground (arith, same_key_refl xs)

pub same_key-eq : (a b : Key) → same_key a b ≡ true → a ≡ b
same_key-eq [] [] h = refl
same_key-eq [] (y ∷ ys) h = absurd (ground (arith, h))
same_key-eq (x ∷ xs) [] h = absurd (ground (arith, h))
same_key-eq (x ∷ xs) (y ∷ ys) h =
    let head : x ≡ y = ground (arith, h) in
    ap₂ (λ a cs. a ∷ cs) head (same_key-eq xs ys (ground (arith, h)))

module _ {X S : Type 0} (go : Runtime) (store : Store Key (Failure X) S)
    (view : S → Key → Bytes) where
  -- An update that succeeds stores what its function makes of what is held.
  pub record IsUpdating : Type 0 where
    pub update_done :
        (s : S) (key : Key) (f : Bytes → Bytes × Option (Failure X))
        → (store.update s key f).1 ≡ none
        → (view (store.update s key f).0 key ≡ (f (view s key)).0) × ((f (view s key)).1 ≡ none)

  -- What a delta, if there is one, makes of what is stored.
  abbrev pub flushed : Bytes → Option Pending → Bytes
  flushed old delta = elim delta [ none ↦ old | some p ↦ (merged_series {X = X} go p old).0 ]

  -- What the buffer shows of a key.
  abbrev pub buffered : Db S → Key → Option Pending
  buffered db key = elim db.buffer [ none ↦ none | some b ↦ clone key b ]

  -- A delta among the items that the store `t` does not show, where `s` was before.
  pub record IsLost (items : List (Key × Pending)) (s t : S) : Type 0 where
    pub key : Key
    pub delta : Pending
    pub found : find key items ≡ some delta
    pub unstored : view t key ≡ view s key

  -- A round of the loop behind its update.
  abbrev after :
      Db S → Pending → List (Key × Pending) → Option (Failure X) → Db S × Option (Failure X)
  after db delta rest e = elim e [
    | some e ↦ (db, some e)
    | none ↦ flush_loop go store rest (recycled delta db)
  ]

  module _ (laws : IsPrimary store view) (updating : IsUpdating) where
    merge-view :
        (db : Db S) (key j : Key) (delta : Pending)
        → (merge go store db key delta).1 ≡ none
        → view (merge go store db key delta).0.store j
          ≡ flushed (view db.store j) (if same_key key j then some delta else none)
    unfolding merge
    merge-view db key j delta h =
        let f = merged_series {X = X} go delta in
        let same : same_key key j ≡ true
            → view (store.update db.store key f).0 j ≡ (f (view db.store j)).0 =
          λ e. rw (← same_key-eq key j e) ((updating.update_done db.store key f h).0) in
        let self : (j ≡ key) → same_key key j ≡ true = λ e. rw e (same_key_refl key) in
        ground (arith, same, self, laws.update_other db.store key j f)

    recycled-store : (delta : Pending) (db : Db S) → (recycled delta db).store ≡ db.store
    recycled-store delta db = ground arith

    flush_loop-view :
        (items : List (Key × Pending)) (db : Db S) (j : Key)
        → AreDistinct items
        → (flush_loop go store items db).1 ≡ none
        → view (flush_loop go store items db).0.store j ≡ flushed (view db.store j) (find j items)
    unfolding flush_loop find
    flush_loop-view [] db j d h = refl
    flush_loop-view ((key, delta) ∷ rest) db j (p, d) h =
        let db' = recycled delta (merge go store db key delta).0 in
        let rest_view = flush_loop-view rest db' j d in
        let absent : same_key key j ≡ true → find j rest ≡ none =
          λ e. rw (← same_key-eq key j e) p in
        ground (
          arith,
          h,
          absent,
          rest_view,
          merge-view db key j delta,
          recycled-store delta (merge go store db key delta).0,
        )

    failed_head :
        (db : Db S) (key j : Key) (delta : Pending)
        → is_set (merge go store db key delta).1 ≡ true
        → view (merge go store db key delta).0.store j ≡ view db.store j
    unfolding merge
    failed_head db key j delta h = laws.update_failed db.store key j (merged_series go delta) h

    IsLost-behind :
        (db : Db S) (key : Key) (delta : Pending) (rest : List (Key × Pending)) (s : S)
        → find key rest ≡ none
        → (merge go store db key delta).1 ≡ none
        → IsLost rest (recycled delta (merge go store db key delta).0).store s
        → IsLost ((key, delta) ∷ rest) db.store s
    unfolding find
    IsLost-behind db key delta rest s p e l =
        let other : same_key key l.key ≡ true → find l.key rest ≡ none =
          λ h. rw (← same_key-eq key l.key h) p in
        record {
          key = l.key;
          delta = l.delta;
          found = ground (arith, other, l.found);
          unstored = ground (
            arith,
            other,
            l.found,
            l.unstored,
            recycled-store delta (merge go store db key delta).0,
            merge-view db key l.key delta e,
          );
        }

    -- The item whose update fails is not stored.
    flush_loop-IsLost :
        (items : List (Key × Pending)) (db : Db S)
        → AreDistinct items
        → is_set (flush_loop go store items db).1 ≡ true
        → IsLost items db.store (flush_loop go store items db).0.store
    unfolding flush_loop
    flush_loop-IsLost [] db d h = absurd (ground (arith, h))
    flush_loop-IsLost ((key, delta) ∷ rest) db (p, d) h =
        let db' = (merge go store db key delta).0 in
        (elim (merge go store db key delta).1
            as (λ e.
              (merge go store db key delta).1 ≡ e
              → is_set (after db' delta rest e).1 ≡ true
              → IsLost ((key, delta) ∷ rest) db.store (after db' delta rest e).0.store) [
                | none ↦ λ e h.
                    IsLost-behind db key delta rest
                      (flush_loop go store rest (recycled delta db')).0.store p e
                      (flush_loop-IsLost rest (recycled delta db') d h)
                | some x ↦ λ e h. record {
                  key = key;
                  delta = delta;
                  found = unfold find in ground (arith, same_key_refl key);
                  unstored = failed_head db key key delta (ground (arith, e));
                }
              ])
          refl h

    flush_loop-buffered :
        (items : List (Key × Pending)) (db : Db S) (j : Key)
        → buffered (flush_loop go store items db).0 j ≡ buffered db j
    unfolding flush_loop merge recycle clone
    flush_loop-buffered [] db j = refl
    flush_loop-buffered ((key, delta) ∷ rest) db j =
        let db' = recycled delta (merge go store db key delta).0 in
        ground (arith, flush_loop-buffered rest db' j)

    -- A flush of the buffer `b` that ends without an error stores, under each key, what `append`
    -- makes of the series there and of the delta in the buffer, and leaves every other key alone.
    pub flush-stores :
        (db : Db S) (b : Buffer) (j : Key)
        → db.buffer ≡ some b
        → AreDistinct b.items
        → (flush go store db).1 ≡ none
        → (view (flush go store db).0.store j ≡ flushed (view db.store j) (find j b.items))
          × (buffered (flush go store db).0 j ≡ none)
    unfolding flush flush_items clone find
    flush-stores db b j e d h =
        let (items, b') = flush_items b in
        let db' : Db S = record db { buffer = some b' } in
        ground (arith, e, h, flush_loop-view items db' j d, flush_loop-buffered items db' j)

    -- A flush that ends with an error has lost writes: of some key there was a delta in the buffer,
    -- the buffer holds nothing of it any more, and what is stored of it is what was there before.
    pub flush-IsLost :
        (db : Db S) (b : Buffer)
        → db.buffer ≡ some b
        → AreDistinct b.items
        → is_set (flush go store db).1 ≡ true
        → (l : IsLost b.items db.store (flush go store db).0.store) × (buffered
              (flush go store db).0
              l.key
            ≡ none)
    unfolding flush flush_items clone find
    flush-IsLost db b e d h =
        let (items, b') = flush_items b in
        let db' : Db S = record db { buffer = some b' } in
        let same : flush go store db ≡ flush_loop go store items db' = ground (arith, e) in
        let l = flush_loop-IsLost items db' d (ground (arith, h, same)) in
        rw same (l, flush_loop-buffered items db' l.key)
