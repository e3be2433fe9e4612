-- ===== src/State/RedisStore.antt =====
-- lib/state/state.go: RedisStore. The client of github.com/redis/go-redis is a parameter: `Redis`
-- has the commands that the store runs, over the state of the server.
use Prim.Native.String.{◌++◌ as ◌++ₛ◌}
use mezon_go_sdk_turbo.Prelude.{
  ℕ, zero, suc, ◌*◌, String, Bool, true, false, List, [], ◌∷◌, Option, none, some, Bytes, is_empty,
  bytes_eq, ascii, format_uint, if◌then◌else◌,
}
use mezon_go_sdk_turbo.Prelude.Int.{ℤ, pos, negsuc}
use mezon_go_sdk_turbo.Types.{Tier, cold, warm, hot, to_string}
use mezon_go_sdk_turbo.Tier.Config.{second, or_default}
use mezon_go_sdk_turbo.State.{Result, ok, err, Store}

-- The commands of the pipelines, on a key.
pub data Command : Type 0 where
  z_rem_range_by_rank : String → ℤ → ℤ → Command
  expire : String → ℤ → Command
  s_add : String → Bytes → Command
  h_set : String → Bytes → Bytes → Command
  h_incr_by : String → Bytes → ℕ → Command

-- `redis.Nil` of HGet is `none`. ZAddNX answers how many members it added.
pub record Redis (S : Type 0) : Type 0 where
  pub z_add_nx : String → ℕ → Bytes → S → Result ℕ × S
  pub s_members : String → S → Result (List Bytes) × S
  pub h_get : String → Bytes → S → Result (Option Bytes) × S
  pub exec : List Command → S → Option String × S

pub record RedisStore : Type 0 where
  pub ttl : ℤ
  pub dedup_cap : ℤ

unfoldable pub new_redis_store : ℤ → ℤ → RedisStore
new_redis_store ttl dedup_cap = record {
  ttl = or_default ttl (30 * (24 * (3600 * second)));
  dedup_cap = or_default dedup_cap 2048;
}

-- `s.k(keyID, suffix)`
unfoldable pub k : String → String → String
k key_id suffix = "mzbot:" ++ₛ (key_id ++ₛ (":" ++ₛ suffix))

-- `-n - 1`
unfoldable pub below : ℤ → ℤ
below (pos n) = negsuc n
below (negsuc n) = pos n

-- The switch of `Tier`.
unfoldable pub tier_of_text : Bytes → Tier
unfolding ascii
tier_of_text v =
    if bytes_eq v (ascii "hot") then hot else if bytes_eq v (ascii "warm") then warm else cold

module _ {S : Type 0} (r : Redis S) (store : RedisStore) where
  unfoldable pub trimmed : Option String × S → Result Bool × S
  trimmed (some e, s) = (err e, s)
  trimmed (none, s) = (ok false, s)

  unfoldable pub added : String → Result ℕ × S → Result Bool × S
  unfolding trimmed below
  added key (err e, s) = (err e, s)
  added key (ok zero, s) = (ok true, s)
  added key (ok (suc n), s) = trimmed (
      r.exec (z_rem_range_by_rank key (pos 0) (below store.dedup_cap) ∷ expire key store.ttl ∷ [])
        s)

  -- `Seen`, at a time in nanoseconds.
  unfoldable pub seen : ℕ → String → Bytes → S → Result Bool × S
  unfolding added k
  seen now key_id msg_id s =
      if is_empty msg_id
      then (ok false, s)
      else added (k key_id "dedup") (r.z_add_nx (k key_id "dedup") now msg_id s)

  unfoldable pub channels : String → S → Result (List Bytes) × S
  unfolding k
  channels key_id s = r.s_members (k key_id "chan") s

  unfoldable pub add_channel : String → Bytes → S → Option String × S
  unfolding k
  add_channel key_id channel_id s =
      if is_empty channel_id
      then (none, s)
      else r.exec (s_add (k key_id "chan") channel_id ∷ expire (k key_id "chan") store.ttl ∷ []) s

  unfoldable pub or_no_cursor : Result (Option Bytes) × S → Result Bytes × S
  or_no_cursor (err e, s) = (err e, s)
  or_no_cursor (ok none, s) = (ok [], s)
  or_no_cursor (ok (some v), s) = (ok v, s)

  unfoldable pub cursor : String → Bytes → S → Result Bytes × S
  unfolding or_no_cursor k
  cursor key_id channel_id s = or_no_cursor (r.h_get (k key_id "cur") channel_id s)

  unfoldable pub set_cursor : String → Bytes → Bytes → S → Option String × S
  unfolding k
  set_cursor key_id channel_id cursor s =
      r.exec (h_set (k key_id "cur") channel_id cursor ∷ expire (k key_id "cur") store.ttl ∷ []) s

  unfoldable pub bump_activity : String → ℕ → S → Option String × S
  unfolding k ascii format_uint
  bump_activity key_id at s =
      r.exec
        (h_set (k key_id "meta") (ascii "last") (format_uint at)
          ∷ h_incr_by (k key_id "meta") (ascii "count") 1
          ∷ expire (k key_id "meta") store.ttl
          ∷ [])
        s

  unfoldable pub or_cold : Result (Option Bytes) × S → Result Tier × S
  unfolding tier_of_text
  or_cold (err e, s) = (err e, s)
  or_cold (ok none, s) = (ok cold, s)
  or_cold (ok (some v), s) = (ok (tier_of_text v), s)

  unfoldable pub tier : String → S → Result Tier × S
  unfolding or_cold k ascii
  tier key_id s = or_cold (r.h_get (k key_id "meta") (ascii "tier") s)

  unfoldable pub set_tier : String → Tier → S → Option String × S
  unfolding k ascii to_string
  set_tier key_id t s =
      r.exec
        (h_set (k key_id "meta") (ascii "tier") (ascii (to_string t))
          ∷ expire (k key_id "meta") store.ttl
          ∷ [])
        s

  -- The store that the poller is given, at the time of a call.
  abbrev pub redis_store : ℕ → Store S
  redis_store now = record {
    seen = seen now;
    channels = channels;
    add_channel = add_channel;
    cursor = cursor;
    set_cursor = set_cursor;
    bump_activity = bump_activity;
    tier = tier;
    set_tier = set_tier;
  }
