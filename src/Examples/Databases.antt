-- ===== src/Examples/Databases.antt =====
-- The theorems on the database, over a store that is a function from keys to values, with a sample
-- that waits in the buffer.
use trend.Prelude.{ℕ, ◌≡◌, ◌≢◌, refl, sym, arith, ◌⊎◌, inr, true, false, none, some}
use trend.Prelude.{List, [], ◌∷◌, if◌then◌else◌}
use trend.Data.{Pending, no_pending}
use trend.Samples
use trend.Codec.Block.{any_not_finite}
use trend.Codec.Series.{Result, ok, err, append_to, pending}
use trend.Codec.RoundTrip.{IsStorable, concat}
use trend.Codec.Extend.{pending-nil}
use trend.Counters
use trend.Sketches.Merge
use trend.Maps
use trend.State.{merge_panics, merge_pending, count_pending}
use trend.Runtime.{Runtime}
use trend.Append.{append_series}
use trend.Append.Laws.{append_series_fuel}
use trend.Append.Loads.{IsBehind, IsMerged, append_series-loads}
use trend.Cached.{Bytes, Store, is_set}
use trend.Cached.Coherence.{IsPrimary}
use trend.Buffer.{Key, same_key, Buffer, find}
use trend.Db.{
  Failure, of_store, Db, Leaser, merged_series, load, flush, flush_loop, merge, compact_bytes,
  compact,
}
use trend.Db.Flush.{
  same_key_refl, same_key-eq, AreDistinct, IsUpdating, flushed, buffered, IsLost, flush-stores,
  flush-IsLost,
}
use trend.Db.Loads.{Holds, load-tail, load-flush}
use trend.Db.Compacts.{IsLeaser, leased, goes_on, IsUpdate, compact-view}
use trend.Examples.{one, copy, copy-IsLossless, mixed}
use trend.Examples.States.{plain}
use trend.Examples.Distributions.{plain_math}

abbrev demo : Runtime
demo = record {
  s2 = copy;
  fp = plain;
  lib = plain_math;
  counter_order = λ t ops. ops;
  sketch_order = λ t ops. ops;
}

append_series_fuel_example :
    (append_series demo 5 [] (some mixed) ≡ append_series demo 2 [] (some mixed))
    × ((r : Result (List ℕ)) × (append_series demo 2 [] (some mixed) ≡ some r))
append_series_fuel_example = append_series_fuel demo 3 [] (some mixed)

-- A sample at time 7.
abbrev tiny : Pending
tiny = record no_pending {
  samples = record {
    time = 7 ∷ [];
    values = one ∷ [];
    clock = 1 ∷ [];
    replica = 2 ∷ [];
    buckets = [];
  };
}

tiny_merge : merge_pending demo no_pending tiny ≡ tiny
unfolding merge_pending trend.Samples.merge trend.Samples.add_points
    trend.Samples.merge_sample_buckets trend.Counters.merge trend.Sketches.Merge.merge
    trend.Maps.sorted_times trend.Counters.merge_counter_buckets
    trend.Sketches.Merge.merge_sketch_buckets trend.Samples.points_of trend.Counters.ops_of
    trend.Sketches.Merge.ops_of trend.Sketches.Merge.encoded_buckets trend.Samples.rows
    trend.Counters.rows trend.Sketches.Merge.rows trend.Samples.merge_point trend.Maps.lookup
    trend.Maps.insert trend.Samples.add
tiny_merge = refl

tiny-IsStorable : IsStorable tiny
unfolding any_not_finite
tiny-IsStorable = record {
  sample_rows = record {
    time_length = refl;
    values_length = refl;
    clock_length = refl;
    replica_length = refl;
    time_fits = (omega arith, tt);
    values_fit = (omega arith, tt);
    clock_fits = (omega arith, tt);
    replica_fits = (omega arith, tt);
  };
  sample_order = (tt, tt);
  sample_buckets = tt;
  sample_bucket_order = tt;
  counter_rows = record {
    time_length = refl;
    replica_length = refl;
    clock_length = refl;
    value_length = refl;
    time_fits = tt;
    replica_fits = tt;
    clock_fits = tt;
    value_fits = tt;
  };
  counter_order = tt;
  counter_buckets = tt;
  counter_bucket_order = tt;
  sketch_rows = record {
    time_length = refl;
    values_length = refl;
    clock_length = refl;
    replica_length = refl;
    time_fits = tt;
    values_fit = tt;
    clock_fits = tt;
    replica_fits = tt;
  };
  sketch_order = tt;
  sketch_finite = refl;
  sketch_buckets = tt;
  sketch_bucket_order = tt;
}

merged-IsStorable : IsStorable (merge_pending demo no_pending tiny)
merged-IsStorable = rw tiny_merge tiny-IsStorable

tiny_counts : count_pending tiny ≢ 0
unfolding count_pending trend.Samples.count
tiny_counts e = absurd (omega (arith, e))

tiny_calm : merge_panics no_pending tiny ≡ false
unfolding merge_panics trend.Sketches.Merge.panics
tiny_calm = refl

append_series-loads_example :
    (bs : List ℕ) × (append_series demo 2 [] (some tiny) ≡ some (ok bs))
    × ((IsMerged demo [] tiny × (pending copy bs ≡ ok (merge_pending demo no_pending tiny)))
        ⊎ (IsBehind demo [] tiny × (pending copy bs ≡ ok (concat no_pending tiny))))
append_series-loads_example =
    append_series-loads demo copy-IsLossless [] no_pending tiny (pending-nil copy) tiny-IsStorable
      merged-IsStorable tiny_counts tiny_calm

-- A store that is a function, and one that fails every update.
abbrev Shelf : Type 0
Shelf = Key → Bytes

abbrev Fault : Type 0
Fault = Failure (Unit {0})

abbrev shelf : Store Key Fault Shelf
shelf = record {
  load = λ s key. (s, (s key, none));
  update = λ s key f.
      (let (out, e) = f (s key) in
        elim e [
          | none ↦ ((λ j. if same_key key j then out else s j), none)
          | some e ↦ (s, some e)
        ]);
  delete = λ s key. ((λ j. if same_key key j then none else s j), none);
  close = λ s. (s, none);
}

abbrev broken : Store Key Fault Shelf
broken = record shelf { update = λ s key f. (s, some (of_store tt)) }

abbrev on_shelf : Shelf → Key → Bytes
on_shelf s key = s key

same_key_eq_of : (key j : Key) → same_key key j ≡ true → j ≡ key
same_key_eq_of key j h = sym (same_key-eq key j h)

shelf-IsPrimary : IsPrimary shelf on_shelf
shelf-IsPrimary = record {
  load_view = λ s key j. refl;
  load_found = λ s key e. refl;
  update_other = λ s key j f. ground (arith, same_key_eq_of key j);
  update_failed = λ s key j f e. ground (arith, e);
  delete_other = λ s key j. ground (arith, same_key_eq_of key j);
}

shelf-IsUpdating : IsUpdating demo shelf on_shelf
shelf-IsUpdating = record { update_done = λ s key f e. ground (arith, e, same_key_refl key) }

broken-IsPrimary : IsPrimary broken on_shelf
broken-IsPrimary = record {
  load_view = λ s key j. refl;
  load_found = λ s key e. refl;
  update_other = λ s key j f. inr refl;
  update_failed = λ s key j f e. refl;
  delete_other = λ s key j. ground (arith, same_key_eq_of key j);
}

broken-IsUpdating : IsUpdating demo broken on_shelf
broken-IsUpdating = record { update_done = λ s key f e. absurd (ground (arith, e)) }

abbrev cpu_key : Key
cpu_key = 115 ∷ 58 ∷ 99 ∷ []

abbrev waiting : Buffer
waiting = record { items = (cpu_key, tiny) ∷ []; spare = [] }

abbrev empty_shelf : Shelf
empty_shelf key = none

abbrev open_db : Db Shelf
open_db = record {
  store = empty_shelf;
  replica = 2;
  clock = 1;
  seen = cpu_key ∷ [];
  buffer = some waiting;
  compactor = record { after = 5; span = 2 };
}

waiting-AreDistinct : AreDistinct waiting.items
unfolding find
waiting-AreDistinct = (refl, tt)

flushed_well : (flush demo shelf open_db).1 ≡ none
unfolding flush flush_loop merge merged_series trend.Buffer.flush_items
flushed_well =
    let (bs, e, k) =
      append_series-loads demo copy-IsLossless [] no_pending tiny (pending-nil copy) tiny-IsStorable
        merged-IsStorable tiny_counts tiny_calm in
    ground (arith, e)

flush-stores_example :
    ((flush demo shelf open_db).0.store cpu_key
      ≡ flushed demo shelf on_shelf none (find cpu_key waiting.items))
    × (buffered demo shelf on_shelf (flush demo shelf open_db).0 cpu_key ≡ none)
flush-stores_example =
    flush-stores demo shelf on_shelf shelf-IsPrimary shelf-IsUpdating open_db waiting cpu_key refl
      waiting-AreDistinct flushed_well

flushed_badly : is_set (flush demo broken open_db).1 ≡ true
unfolding flush flush_loop merge trend.Buffer.flush_items
flushed_badly = refl

flush-IsLost_example :
    (l : IsLost demo broken on_shelf waiting.items open_db.store
      (flush demo broken open_db).0.store)
    × (buffered demo broken on_shelf (flush demo broken open_db).0 l.key ≡ none)
flush-IsLost_example =
    flush-IsLost demo broken on_shelf broken-IsPrimary broken-IsUpdating open_db waiting refl
      waiting-AreDistinct flushed_badly

waiting-tiny : buffered demo shelf on_shelf open_db cpu_key ≡ some tiny
unfolding trend.Buffer.clone find
waiting-tiny = refl

load-tail_example :
    (bs : List ℕ) × ((load demo shelf open_db cpu_key).1 ≡ (bs, none))
    × (pending copy bs ≡ ok (merge_pending demo no_pending tiny))
load-tail_example =
    load-tail demo copy-IsLossless shelf on_shelf shelf-IsPrimary open_db cpu_key no_pending tiny
      refl (pending-nil copy) waiting-tiny merged-IsStorable tiny_calm

found_tiny : find cpu_key waiting.items ≡ some tiny
unfolding find
found_tiny = refl

load-flush_example :
    (bs : List ℕ) × ((load demo shelf (flush demo shelf open_db).0 cpu_key).1 ≡ (bs, none))
    × Holds demo copy-IsLossless shelf on_shelf shelf-IsPrimary [] bs no_pending tiny
load-flush_example =
    load-flush demo copy-IsLossless shelf on_shelf shelf-IsPrimary shelf-IsUpdating open_db waiting
      cpu_key no_pending tiny refl waiting-AreDistinct found_tiny flushed_well refl
      (pending-nil copy) tiny-IsStorable merged-IsStorable tiny_counts tiny_calm

-- A lease that is always granted.
abbrev free : Leaser (Unit {0}) Shelf
free = record { lease = λ s key ttl. (s, (true, none)); release = λ s key. (s, none) }

free-IsLeaser : IsLeaser demo shelf on_shelf free
free-IsLeaser = record { lease_view = λ s key j ttl. refl; release_view = λ s key j. refl }

-- A database whose store holds the sample at 7, in the bytes that `append` made of it.
abbrev tiny_bytes : Bytes
tiny_bytes = elim (append_to copy tiny []) [ ok bs ↦ some bs | err e ↦ none ]

abbrev full_shelf : Shelf
full_shelf key = if same_key cpu_key key then tiny_bytes else none

abbrev full_db : Db Shelf
full_db = record open_db { store = full_shelf; buffer = none }

compact-view_example :
    let f = compact_bytes {X = Unit {0}} demo (λ d. d) full_db.compactor 100 in
    let (db', e) = compact demo shelf (some free) (λ d. d) full_db cpu_key 100 in
    ((goes_on demo shelf on_shelf (some free) full_db cpu_key ≡ false)
      × (db'.store cpu_key ≡ full_shelf cpu_key))
    ⊎ ((goes_on demo shelf on_shelf (some free) full_db cpu_key ≡ true)
        × (e
            ≡ (shelf.update
                (leased demo shelf on_shelf (some free) full_shelf cpu_key)
                cpu_key
                f).1)
        × IsUpdate demo shelf on_shelf cpu_key cpu_key
            (full_shelf cpu_key)
            (db'.store cpu_key)
            (f (full_shelf cpu_key))
            e)
compact-view_example =
    compact-view demo shelf on_shelf shelf-IsPrimary shelf-IsUpdating (λ d. d) (some free) full_db
      cpu_key cpu_key 100 free-IsLeaser
