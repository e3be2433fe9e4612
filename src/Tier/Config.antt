-- ===== src/Tier/Config.antt =====
-- lib/tier/manager.go: Config and withDefaults. The injected Now and MemMB are arguments of the
-- operations that call them. A `time.Duration` is a number of nanoseconds, an `int` an integer.
use mezon_go_sdk_turbo.Prelude.{
  ℕ, ◌*◌, ◌/◌, String, ◌&&◌, List, [], ◌∷◌, Option, none, some, ltb, leb, str_eq, if◌then◌else◌,
}
use mezon_go_sdk_turbo.Prelude.Int.{ℤ, pos, leb_ℤ}
use mezon_go_sdk_turbo.Float.{FloatOps}

abbrev pub second : ℕ
second = 1_000_000_000

abbrev pub minute : ℕ
minute = 60 * second

-- `plan_weight` is a nil map where it is `none`.
pub record Config (Float : Type 0) : Type 0 where
  pub max_hot : ℤ
  pub pressure_hot_cap : ℤ
  pub hot_per_tenant : ℤ
  pub warm_poll : ℤ
  pub cold_poll : ℤ
  pub hot_idle : ℤ
  pub warm_idle : ℤ
  pub tick : ℤ
  pub plan_weight : Option (List (String × Float))
  pub mem_high_mb : ℕ
  pub mem_low_mb : ℕ

-- `if v <= 0 { v = d }`
abbrev pub or_default : ℤ → ℕ → ℤ
or_default v d = if leb_ℤ v (pos 0) then pos d else v

-- heapMB: HeapAlloc, in bytes, as whole megabytes.
unfoldable pub heap_mb : ℕ → ℕ
heap_mb heap_alloc = heap_alloc / (1024 * 1024)

module _ {Float : Type 0} ⦃f : FloatOps Float⦄ where
  or_plans : Option (List (String × Float)) → List (String × Float)
  or_plans none = ("starter", f.tenths 10) ∷ ("pro", f.tenths 20) ∷ ("enterprise", f.tenths 30) ∷ []
  or_plans (some plans) = plans

  unfoldable pub with_defaults : Config Float → Config Float
  unfolding or_plans
  with_defaults c = record c {
    max_hot = or_default c.max_hot 200;
    warm_poll = or_default c.warm_poll (20 * second);
    cold_poll = or_default c.cold_poll (3 * minute);
    hot_idle = or_default c.hot_idle (2 * minute);
    warm_idle = or_default c.warm_idle (10 * minute);
    tick = or_default c.tick (2 * second);
    plan_weight = some (or_plans c.plan_weight);
  }

  -- `m[plan]`: a plan that the map does not hold weighs 0. A Go map holds a key once.
  weight_in : String → List (String × Float) → Float
  weight_in plan [] = f.tenths 0
  weight_in plan ((name, w) ∷ rest) = if str_eq name plan then w else weight_in plan rest

  weight_of : String → Option (List (String × Float)) → Float
  weight_of plan none = f.tenths 0
  weight_of plan (some plans) = weight_in plan plans

  unfoldable pub plan_weight : Config Float → String → Float
  unfolding weight_of weight_in
  plan_weight c plan = weight_of plan c.plan_weight

-- Step 2 of rebalanceLocked: the hot budget, reduced under memory pressure.
unfoldable pub eff_hot : {Float : Type 0} → Config Float → ℕ → ℤ
eff_hot c mem =
    if ltb 0 c.mem_high_mb && leb c.mem_high_mb mem then c.pressure_hot_cap else c.max_hot
