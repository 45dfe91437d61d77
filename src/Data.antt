-- ===== src/Data.antt =====
-- The in-memory state of a series: series.go (pending, sampleData, counterData) and
-- sketch_state.go (sketchData, sketchBucket). Columns are parallel slices, here lists.
use trend.Prelude.{ℕ, ◌^◌, ◌<◌, List, []}
use trend.Float.{Float64}

pub record SampleBucket : Type 0 where
  pub time : ℕ
  pub count : ℕ
  pub sum : Float64
  pub min : Float64
  pub max : Float64
  pub first : Float64
  pub last : Float64

-- `values` is the field Data.
pub record SampleData : Type 0 where
  pub time : List ℕ
  pub values : List Float64
  pub clock : List ℕ
  pub replica : List ℕ
  pub buckets : List SampleBucket

pub record CounterBucket : Type 0 where
  pub time : ℕ
  pub sum : ℕ

pub record CounterData : Type 0 where
  pub time : List ℕ
  pub replica : List ℕ
  pub clock : List ℕ
  pub value : List ℕ
  pub buckets : List CounterBucket

-- `encoded` is the field Data.
pub record SketchBucket : Type 0 where
  pub time : ℕ
  pub encoded : List ℕ

-- `values` is the field Data.
pub record SketchData : Type 0 where
  pub time : List ℕ
  pub values : List Float64
  pub clock : List ℕ
  pub replica : List ℕ
  pub buckets : List SketchBucket

pub record Pending : Type 0 where
  pub samples : SampleData
  pub counters : CounterData
  pub sketches : SketchData

-- The zero values `sampleData{}`, `counterData{}`, `sketchData{}` and `pending{}`.
abbrev pub no_samples : SampleData
no_samples = record { time = []; values = []; clock = []; replica = []; buckets = [] }

abbrev pub no_counters : CounterData
no_counters = record { time = []; replica = []; clock = []; value = []; buckets = [] }

abbrev pub no_sketches : SketchData
no_sketches = record { time = []; values = []; clock = []; replica = []; buckets = [] }

abbrev pub no_pending : Pending
no_pending = record { samples = no_samples; counters = no_counters; sketches = no_sketches }

-- The ranges that Go's types give: uint64 and float64 fields.
abbrev pub IsU64 : ℕ → Type 0
IsU64 v = v < 2 ^ 64
