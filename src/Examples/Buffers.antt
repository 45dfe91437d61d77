-- ===== src/Examples/Buffers.antt =====
-- The write buffer with a key that it shows, one that it does not, and a spare state.
use trend.Prelude.{◌≡◌, refl, [], ◌∷◌, none, some, if◌then◌else◌}
use trend.Data.{no_pending}
use trend.Samples
use trend.Counters
use trend.Sketches
use trend.Buffer.{
  Key, same_key, Buffer, add_sample, add_counter, add_sketch, clone, flush_items, recycle,
}
use trend.Buffer.Laws.{IsClean, or_empty, clone-add, IsClean-kept}
use trend.Examples.{one, mixed}

abbrev cpu : Key
cpu = 99 ∷ 112 ∷ 117 ∷ []

abbrev disk : Key
disk = 100 ∷ []

abbrev busy : Buffer
busy = record { items = (cpu, mixed) ∷ []; spare = no_pending ∷ [] }

busy-IsClean : IsClean busy
busy-IsClean = (refl, tt)

clone-add_example :
    (clone cpu (add_sample disk 3 one 8 1 busy) ≡ (
      if same_key disk cpu
      then (let p = or_empty (clone disk busy) in
          some (record p { samples = trend.Samples.add p.samples 3 one 8 1 }))
      else clone cpu busy))
    × (clone cpu (add_counter disk 3 1 8 5 busy) ≡ (
        if same_key disk cpu
        then (let p = or_empty (clone disk busy) in
            some (record p { counters = trend.Counters.add p.counters 3 1 8 5 }))
        else clone cpu busy))
    × (clone cpu (add_sketch disk 3 one 8 1 busy) ≡ (
        if same_key disk cpu
        then (let p = or_empty (clone disk busy) in
            some (record p { sketches = trend.Sketches.add p.sketches 3 one 8 1 }))
        else clone cpu busy))
clone-add_example = clone-add cpu disk busy busy-IsClean 3 8 1 5 one

IsClean-kept_example :
    IsClean (add_sample disk 3 one 8 1 busy)
    × IsClean (add_counter disk 3 1 8 5 busy)
    × IsClean (add_sketch disk 3 one 8 1 busy)
    × IsClean (recycle mixed busy)
    × IsClean (flush_items busy).1
    × (clone disk (flush_items busy).1 ≡ none)
IsClean-kept_example = IsClean-kept disk busy busy-IsClean 3 8 1 5 one mixed
