-- ===== src/Db/New.antt =====
-- `New` of db.go and the options of option.go. The hash of a replica's name and the default replica,
-- the machine's id, are arguments; the loops that `New` starts run `flush` and `compact_seen`.
use trend.Prelude.{ℕ, ◌*◌, Option, none, some, List, [], ◌∷◌, if◌then◌else◌}
use trend.Cached.{Store}
use trend.Buffer.{Key}
use trend.Db.{Failure, Db, is_positive}

-- The fields of DB that options set. A duration is the word of its int64.
pub record Settings : Type 0 where
  pub replica : ℕ
  pub flush_every : ℕ
  pub after : ℕ
  pub span : ℕ
  pub every : ℕ
  pub jitter : ℕ

abbrev pub hour : ℕ
hour = 3600 * 1_000_000_000

abbrev pub Setter : Type 0 → Type 0
Setter X = Settings → Settings × Option (Failure X)

module _ {X : Type 0} where
  unfoldable pub with_replica : {Name : Type 0} → (Name → ℕ) → Name → Setter X
  with_replica hash id db = (record db { replica = hash id }, none)

  unfoldable pub with_flush_every : ℕ → Setter X
  with_flush_every every db = (record db { flush_every = every }, none)

  unfoldable pub with_compaction : ℕ → ℕ → Setter X
  with_compaction after span db = (record db { after = after; span = span }, none)

  unfoldable pub with_compactor : ℕ → ℕ → Setter X
  with_compactor every jitter db = (record db { every = every; jitter = jitter }, none)

  -- The options in their order, up to one that fails.
  unfoldable pub set_options : List (Setter X) → Settings → Settings × Option (Failure X)
  set_options [] db = (db, none)
  set_options (opt ∷ opts) db =
      let (db', e) = opt db in elim e [ some e ↦ (db', some e) | none ↦ set_options opts db' ]

  unfoldable pub new_db :
      {S : Type 0}
      → Store Key (Failure X) S
      → S
      → ℕ
      → List (Setter X)
      → S × (Option (Db S) × Option (Failure X))
  new_db store s replica opts =
      let start : Settings = record {
        replica = replica;
        flush_every = 0;
        after = 24 * hour;
        span = hour;
        every = 0;
        jitter = 0;
      } in
      let (set, e) = set_options opts start in
      elim e [
        | some e ↦ ((store.close s).0, (none, some e))
        | none ↦ (
          s,
          (
            some (record {
              store = s;
              replica = set.replica;
              clock = 0;
              seen = [];
              buffer =
                  if is_positive set.flush_every
                  then some (record { items = []; spare = [] })
                  else none;
              compactor = record { after = set.after; span = set.span };
            }),
            none,
          ),
        )
      ]
