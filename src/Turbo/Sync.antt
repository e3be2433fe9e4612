-- ===== src/Turbo/Sync.antt =====
-- lib/turbo/turbo.go: SyncClans. A Conn in `hot` is its address, and `conns` holds the Conns.
use mezon_go_sdk_turbo.Prelude.{
  ℕ, ◌==◌, String, Bool, true, false, ◌||◌, List, [], ◌∷◌, ◌++◌, Option, none, some, Bytes,
  bytes_eq, is_empty, update, if◌then◌else◌,
}
use mezon_go_sdk_turbo.Prelude.Int.{pos, ltb_ℤ}
use mezon_go_sdk_turbo.Types.{BotRef}
use mezon_go_sdk_turbo.State.{Result, ok, err}
use mezon_go_sdk_turbo.Proto.{ProtoWire}
use mezon_go_sdk_turbo.Tier.Score.{time_sub}
use mezon_go_sdk_turbo.Rest.{Clan, Channel}
use mezon_go_sdk_turbo.Ws.Conn.{Conn, Wire, has_joined, join_clan}
use mezon_go_sdk_turbo.Turbo.{CachedSession, Engine, channels_backoff}
use mezon_go_sdk_turbo.Turbo.Session.{Client, Routed, session}

pub record ClanSnapshot : Type 0 where
  pub id : Bytes
  pub name : Bytes
  pub channels : List Channel
  pub channels_known : Bool

-- What ListChannels answers: channels, an HTTPError with its status, or another error.
pub data Listing : Type 0 where
  listed : List Channel → Listing
  http_error : ℕ → Listing
  failed : String → Listing

pub record Directory (F : Type 0) : Type 0 where
  pub list_clans : Bytes → Bytes → F → Result (List Clan) × F
  pub list_channels : Bytes → Bytes → Bytes → F → Listing × F

-- The engine, the Conns, and what lies outside.
pub record Host (F : Type 0) : Type 0 where
  pub engine : Engine
  pub conns : ℕ → Conn
  pub far : F

-- `!forbidden || time.Since(forbiddenAt) > channelsBackoff`
unfoldable pub may_list : ℕ → Option ℕ → Bool
unfolding time_sub
may_list now none = true
may_list now (some at) = ltb_ℤ (pos channels_backoff) (time_sub now at)

abbrev pub unknown : Clan → ClanSnapshot
unknown cl = record { id = cl.id; name = cl.name; channels = []; channels_known = false }

-- The variables of the loop over the clans.
pub record Pass (F : Type 0) : Type 0 where
  pub lists : Bool
  pub no_channels : Option ℕ
  pub far : F

module _ {F : Type 0} (dir : Directory F) where
  -- The switch on what ListChannels answers; `now` is what time.Now answers.
  unfoldable pub on_listing : ℕ → Clan → Pass F → Listing × F → ClanSnapshot × Pass F
  on_listing now cl p (listed chans, s) =
      (record (unknown cl) { channels = chans; channels_known = true }, record p { far = s })
  on_listing now cl p (http_error status, s) =
      if status == 403
      then (unknown cl, record { lists = false; no_channels = some now; far = s })
      else (unknown cl, record p { far = s })
  on_listing now cl p (failed e, s) = (unknown cl, record p { far = s })

  -- One round of the loop.
  unfoldable pub snapshot : ℕ → CachedSession → Clan → Pass F → ClanSnapshot × Pass F
  unfolding on_listing
  snapshot now c cl p =
      if p.lists
      then on_listing now cl p (dir.list_channels c.api_url c.token cl.id p.far)
      else (unknown cl, p)

  unfoldable pub snapshots : ℕ → CachedSession → List Clan → Pass F → List ClanSnapshot × Pass F
  unfolding snapshot
  snapshots now c [] p = ([], p)
  snapshots now c (cl ∷ cls) p =
      let r = snapshot now c cl p in let rest = snapshots now c cls r.1 in (r.0 ∷ rest.0, rest.1)

abbrev pub is_known : List Bytes → Bytes → Bool
is_known [] id = false
is_known (j ∷ js) id = bytes_eq j id || is_known js id

-- The clans that `known`, the ids before the loop, does not hold are appended.
unfoldable pub remember : List Bytes → List Clan → List Bytes → List Bytes
remember known [] ids = ids
remember known (cl ∷ cls) ids =
    remember known cls (if is_known known cl.id then ids else ids ++ (cl.id ∷ []))

unfoldable pub remembered : List Clan → Option CachedSession → Option CachedSession
unfolding remember
remembered cls none = none
remembered cls (some c) = some (record c { clan_ids = remember c.clan_ids cls c.clan_ids })

abbrev pub conn_at : (ℕ → Conn) → ℕ → Conn → ℕ → Conn
conn_at conns c x d = if c == d then x else conns d

-- After a call of `session`; and whether there is an Authenticator.
abbrev pub routed : {F : Type 0} → Host F → Routed F → Host F
routed h r = record h { engine = r.engine; far = r.far }

abbrev pub has_auth : {A : Type 0} → Option A → Bool
has_auth none = false
has_auth (some a) = true

module _ ⦃w : ProtoWire⦄ {F : Type 0} (write : ℕ → Bytes → F → Option String × F) where
  -- The clans that the live socket has not joined. JoinClan does nothing for the others.
  unfoldable pub join_new : ℕ → List Clan → Wire F → Wire F
  unfolding has_joined join_clan
  join_new c [] x = x
  join_new c (cl ∷ cls) x =
      join_new c cls (if has_joined cl.id x.conn then x else (join_clan (write c) cl.id x).1)

  abbrev joined_at : ℕ → Host F → Wire F → Host F
  joined_at c h x = record h { conns = conn_at h.conns c x.conn; far = x.far }

  -- The part after the loop: `e.sessions` and the live socket.
  unfoldable pub join_live : List Clan → Option ℕ → Host F → Host F
  unfolding join_new
  join_live cls none h = h
  join_live cls (some c) h =
      if (h.conns c).closed
      then h
      else joined_at c h (join_new c cls (record { conn = h.conns c; far = h.far }))

  module _ (dir : Directory F) (bot : BotRef) (now : ℕ) where
    unfoldable pub after_loop :
        List Clan → Host F → List ClanSnapshot × Pass F → Result (List ClanSnapshot) × Host F
    unfolding join_live remembered
    after_loop cls h (snaps, p) =
        let key = bot.key_id in
        let e : Engine = record h.engine {
          no_channels = update h.engine.no_channels key p.no_channels;
          sessions = update h.engine.sessions key (remembered cls (h.engine.sessions key));
        } in
        (ok snaps, join_live cls (e.hot key) (record h { engine = e; far = p.far }))

    unfoldable pub on_clans :
        CachedSession → Host F → Result (List Clan) × F → Result (List ClanSnapshot) × Host F
    unfolding snapshots after_loop may_list
    on_clans c h (err x, s) = (err x, record h { far = s })
    on_clans c h (ok cls, s) =
        let p : Pass F = record {
          lists = may_list now (h.engine.no_channels bot.key_id);
          no_channels = h.engine.no_channels bot.key_id;
          far = s;
        } in
        after_loop cls h (snapshots dir now c cls p)

    -- The session that the call of `session` has left.
    unfoldable pub with_session :
        Option CachedSession → Host F → Result (List ClanSnapshot) × Host F
    unfolding on_clans
    with_session none h = (err "sync clans: no session", h)
    with_session (some c) h =
        if is_empty c.api_url
        then (err "sync clans: no session", h)
        else on_clans c h (dir.list_clans c.api_url c.token h.far)

  abbrev directed :
      Option (Directory F)
      → Client F
      → BotRef
      → ℕ
      → ℕ
      → Host F
      → Result (List ClanSnapshot) × Host F
  directed none cl bot now fetched h = (err "sync clans: no clan directory configured", h)
  directed (some dir) cl bot now fetched h =
      if has_auth cl.auth
      then (let h' = routed h (session cl bot now fetched h.engine h.far) in
          with_session dir bot now (h'.engine.sessions bot.key_id) h')
      else (err "sync clans: no clan directory configured", h)

  unfoldable pub sync_clans :
      Option (Directory F)
      → Client F
      → BotRef
      → ℕ
      → ℕ
      → Host F
      → Result (List ClanSnapshot) × Host F
  unfolding session with_session
  sync_clans dir cl bot now fetched h = directed dir cl bot now fetched h
