-- ===== src/Turbo.antt =====
-- lib/turbo/turbo.go: the engine. `hot`, `opening`, `sessions` and `noChannels` are maps from key
-- ids, a connection is the address of its Conn, and each function is one critical section of
-- `e.mu`, with the calls after it as its result.
pub mod Hot
pub mod Life
pub mod Session
pub mod Reuse
pub mod Sync
pub mod Synced
pub mod Send
pub mod Frame
pub mod Deliver
pub mod Register
pub mod Removed
pub mod Tiers
mod Tests
use mezon_go_sdk_turbo.Prelude.{ℕ, ◌*◌, String, Bool, false, List, [], Option, none, Bytes}
use mezon_go_sdk_turbo.Tier.Config.{minute}
use mezon_go_sdk_turbo.Ws.PingWheel.{PingWheel}

abbrev pub channels_backoff : ℕ
channels_backoff = 6 * (60 * minute)

abbrev pub session_ttl : ℕ
session_ttl = 30 * minute

pub record CachedSession : Type 0 where
  pub token : Bytes
  pub ws_host : Bytes
  pub api_url : Bytes
  pub clan_ids : List Bytes
  pub username : Bytes
  pub display_name : Bytes
  pub fetched : ℕ

-- The maps of the Engine, and its ping wheel.
pub record Engine : Type 0 where
  pub wheel : PingWheel
  pub no_channels : String → Option ℕ
  pub hot : String → Option ℕ
  pub opening : String → Bool
  pub sessions : String → Option CachedSession

-- The maps of New.
unfoldable pub new_engine : PingWheel → Engine
new_engine w = record {
  wheel = w;
  no_channels = λ k. none;
  hot = λ k. none;
  opening = λ k. false;
  sessions = λ k. none;
}
