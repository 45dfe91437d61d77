-- ===== src/Cached/Config.antt =====
-- The configuration of storage/cached/cached.go. A duration and an int are the words of their int64;
-- what package strconv and package time parse is a parameter.
use trend.Prelude.{ℕ, ◌*◌, ◌^◌, Bool, true, ◌||◌, not, Option, none, some, List, [], foldl}
use trend.Prelude.{ltb, ◌==◌, if◌then◌else◌}

pub record Config : Type 0 where
  pub enabled : Bool
  pub ttl : ℕ
  pub size : ℕ

-- An hour in nanoseconds.
abbrev pub default_ttl : ℕ
default_ttl = 3600 * 1_000_000_000

unfoldable pub with_cache : Bool → Config → Config
with_cache enabled cfg = record cfg { enabled = enabled }

unfoldable pub with_cache_ttl : ℕ → Config → Config
with_cache_ttl ttl cfg = record cfg { ttl = ttl }

unfoldable pub with_cache_size : ℕ → Config → Config
with_cache_size size cfg = record cfg { size = size }

-- v < 0 on int64.
abbrev is_negative : ℕ → Bool
is_negative v = not (ltb v (2 ^ 63))

unfoldable pub normalize : Config → Config
normalize cfg =
    let cfg : Config =
      if cfg.ttl == 0 || is_negative cfg.ttl then record cfg { ttl = default_ttl } else cfg in
    if is_negative cfg.size then record cfg { size = 0 } else cfg

-- `none` is a nil option.
unfoldable pub new_config : List (Option (Config → Config)) → Config
new_config opts = normalize (
    foldl (λ cfg o. elim o [ none ↦ cfg | some opt ↦ opt cfg ])
      (record { enabled = true; ttl = default_ttl; size = 0 }) opts)

-- The parameters of a query, `none` where there is no text, and what is wrong with one.
pub data BadQuery : Type 0 where
  bad_cache bad_ttl bad_size negative_size : BadQuery

module _ {Text : Type 0} (parse_bool : Text → Option Bool)
    (parse_duration atoi : Text → Option ℕ) where
  unfoldable pub parse_cache : Option Text → Config → Config × Option BadQuery
  parse_cache none cfg = (cfg, none)
  parse_cache (some value) cfg = elim (parse_bool value) [
    | none ↦ (cfg, some bad_cache)
    | some enabled ↦ (record cfg { enabled = enabled }, none)
  ]

  unfoldable pub parse_ttl : Option Text → Config → Config × Option BadQuery
  parse_ttl none cfg = (cfg, none)
  parse_ttl (some value) cfg = elim (parse_duration value) [
    | none ↦ (cfg, some bad_ttl)
    | some ttl ↦ (record cfg { ttl = ttl }, none)
  ]

  unfoldable pub parse_size : Option Text → Config → Config × Option BadQuery
  parse_size none cfg = (cfg, none)
  parse_size (some value) cfg = elim (atoi value) [
    | none ↦ (cfg, some bad_size)
    | some size ↦
        if is_negative size then (cfg, some negative_size) else (record cfg { size = size }, none)
  ]

  unfoldable pub parse_config : Option Text → Option Text → Option Text → Config × Option BadQuery
  parse_config cache ttl size =
      let (cfg, e) = parse_cache cache (new_config []) in
      elim e [
        | some e ↦ (cfg, some e)
        | none ↦
            let (cfg, e) = parse_ttl ttl cfg in
            elim e [
              | some e ↦ (cfg, some e)
              | none ↦
                  let (cfg, e) = parse_size size cfg in
                  elim e [ some e ↦ (cfg, some e) | none ↦ (normalize cfg, none) ]
            ]
      ]
