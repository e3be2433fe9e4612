-- ===== src/State.antt =====
-- lib/state/state.go: the interface Store. An operation is a function of the state of the backend,
-- and may answer an error, which is `some` where there is no other result. Activity, which only the
-- reader of the counters calls, is not modelled.
pub mod RedisStore
pub mod Answers
mod Tests
use mezon_go_sdk_turbo.Prelude.{ℕ, String, Bool, List, Option, Bytes}
use mezon_go_sdk_turbo.Types.{Tier}

-- A value, or an error.
pub data Result (A : Type 0) : Type 0 where
  ok : A → Result A
  err : String → Result A

pub record Store (S : Type 0) : Type 0 where
  pub seen : String → Bytes → S → Result Bool × S
  pub channels : String → S → Result (List Bytes) × S
  pub add_channel : String → Bytes → S → Option String × S
  pub cursor : String → Bytes → S → Result Bytes × S
  pub set_cursor : String → Bytes → Bytes → S → Option String × S
  -- The time is a number of seconds.
  pub bump_activity : String → ℕ → S → Option String × S
  pub tier : String → S → Result Tier × S
  pub set_tier : String → Tier → S → Option String × S
