-- ===== src/Temperature.antt =====
-- pkg/temperature: config.go and the parts of tracker.go that keep state. Durations and times are
-- numbers that are not negative; the order of floating-point numbers is a parameter.
pub mod Notices
mod Examples
use remindb.Prelude.{
  ℕ, zero, suc, ◌+◌, ◌-◌, ◌*◌, ◌/◌, ◌%◌, ◌≤◌, ◌<◌, min, max, ◌≡◌, refl, sym, ap, ◌∙◌, subst, ◌≢◌,
  ◌↔◌, ◌⊎◌, inl, inr, Bool, true, false, not, ◌&&◌, ◌||◌, Option, none, some, List, [], ◌∷◌, ◌++◌,
  map, append_assoc, append-nil, arith, ltb, leb, ◌==◌, if◌then◌else◌, Bool-cases, Option-cases,
  Bytes, codes, ◌=s◌, str_dec, length, get_elem?, set, take, drop, replicate, All, All-append,
  All-map, length-append,
}
use remindb.Prelude.Assoc.{lookup, insert}
use remindb.Parser.Ast.{Float64}
use remindb.Store.Rows.{Node, get_or}

pub record Config : Type 0 where
  pub decay_rate : Float64
  pub access_boost : Float64
  pub hot_threshold : Float64
  pub cold_threshold : Float64
  pub notify_threshold : Float64
  pub summarize_rebound : Float64
  pub tick_interval : ℕ
  pub cold_notify_ttl : ℕ
  pub cold_notify_limit : ℕ
  pub enabled : Bool

-- The bits of 0.05, 0.15, 0.5 and 0.1; durations in nanoseconds.
unfoldable default_config : Config
default_config = record {
  decay_rate = 0x3FA999999999999A;
  access_boost = 0x3FC3333333333333;
  hot_threshold = 0x3FE0000000000000;
  cold_threshold = 0x3FB999999999999A;
  notify_threshold = 0x3FB999999999999A;
  summarize_rebound = 0x3FE0000000000000;
  tick_interval = 300000000000;
  cold_notify_ttl = 3600000000000;
  cold_notify_limit = 50;
  enabled = true;
}

-- The `temperature` block of config.json.
pub record Overrides : Type 0 where
  pub enabled : Option Bool
  pub decay_rate : Option Float64
  pub access_boost : Option Float64
  pub hot_threshold : Option Float64
  pub cold_threshold : Option Float64
  pub notify_threshold : Option Float64
  pub summarize_rebound : Option Float64
  pub tick_interval : Option ℕ
  pub cold_notify_ttl : Option ℕ
  pub cold_notify_limit : Option ℕ

unfoldable with_overrides : Config → Overrides → Config
with_overrides c o = record {
  decay_rate = get_or o.decay_rate c.decay_rate;
  access_boost = get_or o.access_boost c.access_boost;
  hot_threshold = get_or o.hot_threshold c.hot_threshold;
  cold_threshold = get_or o.cold_threshold c.cold_threshold;
  notify_threshold = get_or o.notify_threshold c.notify_threshold;
  summarize_rebound = get_or o.summarize_rebound c.summarize_rebound;
  tick_interval = get_or o.tick_interval c.tick_interval;
  cold_notify_ttl = get_or o.cold_notify_ttl c.cold_notify_ttl;
  cold_notify_limit = get_or o.cold_notify_limit c.cold_notify_limit;
  enabled = get_or o.enabled c.enabled;
}

pub data Invalid : Type 0 where
  decay_rate access_boost hot_threshold hot_not_above_cold cold_threshold : Invalid
  notify_threshold summarize_rebound tick_interval cold_notify_limit : Invalid

-- `Validate`: the first rule that fails. `not_below_zero` and `in_unit` are the comparisons with the
-- constants, `at_most` the order.
module _ (not_below_zero in_unit : Float64 → Bool) (at_most : Float64 → Float64 → Bool) where
  unfoldable validate : Config → Option Invalid
  validate c =
      if not (not_below_zero c.decay_rate)
      then some decay_rate
      else if not (in_unit c.access_boost)
      then some access_boost
      else if not (in_unit c.hot_threshold)
      then some hot_threshold
      else if at_most c.hot_threshold c.cold_threshold
      then some hot_not_above_cold
      else if not (in_unit c.cold_threshold)
      then some cold_threshold
      else if not (in_unit c.notify_threshold)
      then some notify_threshold
      else if not (in_unit c.summarize_rebound)
      then some summarize_rebound
      else if c.enabled && c.tick_interval == 0
      then some tick_interval
      else if c.cold_notify_limit == 0
      then some cold_notify_limit
      else none

-- When an id was last notified.
abbrev pub Notified : Type 0
Notified = List (Bytes × ℕ)

-- The loop of `dedupCold` that evicts stale entries.
unfoldable pub evict_stale : ℕ → ℕ → Notified → Notified
evict_stale ttl now [] = []
evict_stale ttl now ((id, ts) ∷ m) =
    let rest = evict_stale ttl now m in if ltb ttl (now - ts) then rest else (id, ts) ∷ rest

unfoldable pub not_notified : Notified → List Node → List Node
not_notified m [] = []
not_notified m (n ∷ cold) =
    let rest = not_notified m cold in elim (lookup n.id m) [ some ts ↦ rest | none ↦ n ∷ rest ]

unfoldable pub dedup_cold : ℕ → ℕ → List Node → Notified → List Node × Notified
unfolding evict_stale not_notified
dedup_cold ttl now cold m = let kept = evict_stale ttl now m in (not_notified kept cold, kept)

unfoldable pub mark_notified : ℕ → List Bytes → Notified → Notified
mark_notified now [] m = m
mark_notified now (id ∷ ids) m = mark_notified now ids (insert id now m)

-- `tickInterval`.
abbrev tick_interval_of : Config → Config → ℕ
tick_interval_of bootstrap cfg =
    if cfg.tick_interval == 0 then bootstrap.tick_interval else cfg.tick_interval
