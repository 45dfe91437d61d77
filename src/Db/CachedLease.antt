-- ===== src/Db/CachedLease.antt =====
-- `Lease` of storage/cached/cached.go, and compaction over a cached store.
use trend.Prelude.{◌≡◌, arith, false, Option, none, some}
use trend.Prelude.{ℕ}
use trend.Cached.{Store}
use trend.Buffer.{Key}
use trend.Runtime.{Runtime}
use trend.Db.{Failure, Db, Leaser, compact}

module _ {X P C : Type 0} where
  -- Where the primary store has no leases, none is granted.
  unfoldable pub cached_lease : Option (Leaser X P) → Leaser X (P × C)
  cached_lease none = record {
    lease = λ s key ttl. (s, (false, none));
    release = λ s key. (s, none);
  }
  cached_lease (some l) = record {
    lease = λ s key ttl. (let (p, out) = l.lease s.0 key ttl in ((p, s.1), out));
    release = λ s key. (let (p, e) = l.release s.0 key in ((p, s.1), e));
  }

  -- Over a cached store whose primary store has no leases, `compact` does nothing and reports no
  -- error, whatever the series is.
  compact-cached_lease :
      (go : Runtime) (store : Store Key (Failure X) (P × C)) (seconds : ℕ → ℕ) (db : Db (P × C))
      (key : Key) (cutoff : ℕ)
      → compact go store (some (cached_lease none)) seconds db key cutoff ≡ (db, none)
  unfolding compact cached_lease
  compact-cached_lease go store seconds db key cutoff = ground arith
