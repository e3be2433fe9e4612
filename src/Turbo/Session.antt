-- ===== src/Turbo/Session.antt =====
-- lib/turbo/turbo.go: `session`, over the capabilities of the REST client. `F` is the state of all
-- that lies outside the process.
use mezon_go_sdk_turbo.Prelude.{
  ℕ, ◌==◌, Bool, true, false, ◌&&◌, List, [], ◌∷◌, Option, none, some, Bytes, ascii, is_empty, drop,
  length, update, if◌then◌else◌,
}
use mezon_go_sdk_turbo.Prelude.Int.{pos, ltb_ℤ}
use mezon_go_sdk_turbo.Types.{BotRef}
use mezon_go_sdk_turbo.State.{Result, ok, err}
use mezon_go_sdk_turbo.Tier.Score.{time_sub}
use mezon_go_sdk_turbo.Rest.Session.{Session}
use mezon_go_sdk_turbo.Rest.Account.{Account}
use mezon_go_sdk_turbo.Turbo.{CachedSession, Engine, session_ttl}

-- What the lister given to New implements of Authenticator, ClanLister and AccountFetcher, and the
-- host of the Config.
pub record Client (F : Type 0) : Type 0 where
  pub auth : Option (Bytes → Bytes → F → Result Session × F)
  pub clans : Option (Bytes → Bytes → F → Result (List Bytes) × F)
  pub accounts : Option (Bytes → Bytes → F → Result Account × F)
  pub host : Bytes

-- The token, the host to dial and the clans to join.
pub record Route : Type 0 where
  pub token : Bytes
  pub ws_host : Bytes
  pub clan_ids : List Bytes

-- `strings.TrimPrefix`
abbrev begins : Bytes → Bytes → Bool
begins [] s = true
begins (p ∷ ps) [] = false
begins (p ∷ ps) (c ∷ s) = p == c && begins ps s

unfoldable pub trim_prefix : Bytes → Bytes → Bytes
trim_prefix s p = if begins p s then drop (length p) s else s

unfoldable pub host_of : Bytes → Bytes → Bytes
unfolding trim_prefix ascii
host_of default ws_url =
    let h = trim_prefix (trim_prefix ws_url (ascii "wss://")) (ascii "ws://") in
    if is_empty h then default else h

-- "0", the DM space, and the clans that were listed.
abbrev pub dm_space : Bytes
dm_space = 48 ∷ []

abbrev pub listed_clans : {F : Type 0} → Result (List Bytes) × F → List Bytes × F
listed_clans (err e, s) = (dm_space ∷ [], s)
listed_clans (ok ids, s) = (dm_space ∷ ids, s)

unfoldable pub clan_targets :
    {F : Type 0}
    → Option (Bytes → Bytes → F → Result (List Bytes) × F)
    → Session
    → F
    → List Bytes × F
clan_targets none sess s = (dm_space ∷ [], s)
clan_targets (some list) sess s = listed_clans (list sess.api_url sess.token s)

-- The names of the account, or none.
abbrev pub named : {F : Type 0} → Result Account × F → (Bytes × Bytes) × F
named (err e, s) = (([], []), s)
named (ok acc, s) = ((acc.username, acc.display_name), s)

unfoldable pub names :
    {F : Type 0}
    → Option (Bytes → Bytes → F → Result Account × F)
    → Session
    → F
    → (Bytes × Bytes) × F
names none sess s = (([], []), s)
names (some get) sess s = named (get sess.api_url sess.token s)

-- `time.Since(s.fetched) < sessionTTL`
unfoldable pub is_fresh : ℕ → CachedSession → Bool
unfolding time_sub
is_fresh now s = ltb_ℤ (time_sub now s.fetched) (pos session_ttl)

abbrev pub route_of : CachedSession → Route
route_of s = record { token = s.token; ws_host = s.ws_host; clan_ids = s.clan_ids }

abbrev pub raw_route : Bytes → BotRef → Route
raw_route host bot = record { token = bot.bot_token; ws_host = host; clan_ids = [] }

-- What a call of `session` leaves.
pub record Routed (F : Type 0) : Type 0 where
  pub route : Route
  pub engine : Engine
  pub far : F

module _ {F : Type 0} (cl : Client F) (bot : BotRef) where
  -- After the exchange, at the time `fetched` of its last call of time.Now.
  unfoldable pub exchanged : ℕ → Engine → Result Session × F → Routed F
  unfolding host_of clan_targets names
  exchanged fetched e (err x, s) = record { route = raw_route cl.host bot; engine = e; far = s }
  exchanged fetched e (ok sess, s) =
      let (ids, s1) = clan_targets cl.clans sess s in
      let ((username, display_name), s2) = names cl.accounts sess s1 in
      let cs : CachedSession = record {
        token = sess.token;
        ws_host = host_of cl.host sess.ws_url;
        api_url = sess.api_url;
        clan_ids = ids;
        username = username;
        display_name = display_name;
        fetched = fetched;
      } in
      record {
        route = route_of cs;
        engine = record e { sessions = update e.sessions bot.key_id (some cs) };
        far = s2;
      }

  -- An expired session, or none, is exchanged.
  unfoldable pub cached :
      (Bytes → Bytes → F → Result Session × F)
      → ℕ
      → ℕ
      → Engine
      → F
      → Option CachedSession
      → Routed F
  unfolding exchanged is_fresh
  cached auth now fetched e s none = exchanged fetched e (auth bot.bot_user_id bot.bot_token s)
  cached auth now fetched e s (some c) =
      if is_fresh now c
      then record { route = route_of c; engine = e; far = s }
      else exchanged fetched e (auth bot.bot_user_id bot.bot_token s)

  abbrev pub with_auth :
      Option (Bytes → Bytes → F → Result Session × F) → ℕ → ℕ → Engine → F → Routed F
  with_auth none now fetched e s = record { route = raw_route cl.host bot; engine = e; far = s }
  with_auth (some auth) now fetched e s = cached auth now fetched e s (e.sessions bot.key_id)

  unfoldable pub session : ℕ → ℕ → Engine → F → Routed F
  unfolding cached
  session now fetched e s = with_auth cl.auth now fetched e s
