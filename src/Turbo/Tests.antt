-- ===== src/Turbo/Tests.antt =====
-- lib/turbo/turbo.go on concrete engines.
use mezon_go_sdk_turbo.Prelude.{
  ℕ, ◌+◌, ◌*◌, map, ◌≤◌, ◌≡◌, refl, arith, String, true, false, [], ◌∷◌, Option, none, some, Bytes,
  ascii, update,
}
use mezon_go_sdk_turbo.Types.{hot}
use mezon_go_sdk_turbo.State.{Result, ok}
use mezon_go_sdk_turbo.Ws.Leb.{leb_wire}
use mezon_go_sdk_turbo.Ws.Wire.{SendOpts}
use mezon_go_sdk_turbo.Ws.Conn.{Conn}
use mezon_go_sdk_turbo.Rest.Session.{Session}
use mezon_go_sdk_turbo.Poller.Step.{times}
use mezon_go_sdk_turbo.State.RedisStore.{
  k, seen, added, trimmed, below, channels, cursor, or_no_cursor, set_cursor, bump_activity,
  add_channel, new_redis_store,
}
use mezon_go_sdk_turbo.Poller.{poll_once, poll_channel, poll_message, advance, each}
use mezon_go_sdk_turbo.Poller.Memory.{Memory, no_ids, recorded, until}
use mezon_go_sdk_turbo.Poller.Memory.Laws.{seen_answers, add_channel-Keeps}
use mezon_go_sdk_turbo.Poller.Tests.{message, poller, bot, poller-Remembers}
use mezon_go_sdk_turbo.Turbo.{CachedSession, Engine, new_engine}
use mezon_go_sdk_turbo.Turbo.Session.{Client, session, exchanged, cached, is_fresh}
use mezon_go_sdk_turbo.Turbo.Reuse.{session-session}
use mezon_go_sdk_turbo.Turbo.Sync.{Directory, Host, http_error, sync_clans}
use mezon_go_sdk_turbo.Turbo.Synced.{IsSynced, sync_clans-IsSynced}
use mezon_go_sdk_turbo.Tier.Config.{Config}
use mezon_go_sdk_turbo.Tier.Score.{Entry}
use mezon_go_sdk_turbo.Tier.Calls.{find}
use mezon_go_sdk_turbo.Turbo.Register.{Node, deregister}
use mezon_go_sdk_turbo.Turbo.Removed.{IsClosed, deregister-IsClosed}
use mezon_go_sdk_turbo.Turbo.Deliver.{
  Delivered, IsReliable, frame, poll, arrive_all, arrive_all_once,
}
use mezon_go_sdk_turbo.Prelude.Int.{pos}
use mezon_go_sdk_turbo.Ws.PingWheel.{new_ping_wheel, add}
use mezon_go_sdk_turbo.Turbo.Life.{
  System, start, Reach, here, next, open_step, dial_step, register_step, opens, dials, registers,
}
use mezon_go_sdk_turbo.Turbo.Life.Safety.{IsSound, Reach-start-IsSound}
use mezon_go_sdk_turbo.Turbo.Life.Opening.{IsOpening, Reach-start-IsOpening}
use mezon_go_sdk_turbo.Turbo.Life.Deaf.{IsDeaf, Later}
use mezon_go_sdk_turbo.Turbo.Life.Lost.{IsDeaf-forever}

abbrev fresh : System
fresh = start (new_ping_wheel (pos 0))

-- A bot whose socket is open.
abbrev hot_bot : System
hot_bot = registers 0 (dials "k" (opens "k" fresh))

Reach-hot_bot : Reach fresh hot_bot
unfolding start opens dials registers
Reach-hot_bot =
    let dialed : Reach fresh (dials "k" (opens "k" fresh)) =
      next (next here (open_step "k")) (dial_step "k" (omega arith)) in
    next dialed (register_step 0 (omega arith) refl)

Reach-start-IsSound_example : IsSound hot_bot
Reach-start-IsSound_example = Reach-start-IsSound (pos 0) Reach-hot_bot

Reach-start-IsOpening_example : IsOpening hot_bot
Reach-start-IsOpening_example = Reach-start-IsOpening (pos 0) Reach-hot_bot

IsDeaf-forever_example :
    (c : ℕ) × ((t : System) × (Reach fresh t × ((u : System) → Later "k" t u → IsDeaf "k" c u)))
unfolding start
IsDeaf-forever_example =
    IsDeaf-forever "k" fresh
      (record { unopened = refl; undialed = refl; silent = λ c l own. absurd (omega arith) }) refl

-- A server that lists one clan, and refuses to list its channels.
abbrev logged_in : Session
logged_in = record {
  token = ascii "t";
  refresh_token = [];
  user_id = [];
  api_url = ascii "https://a";
  ws_url = ascii "wss://s";
}

abbrev client : Client ℕ
client = record {
  auth = some (λ id key s. (ok logged_in, s + 1));
  clans = none;
  accounts = none;
  host = ascii "h";
}

abbrev directory : Directory ℕ
directory = record {
  list_clans = λ url token s. (ok (record { id = ascii "5"; name = [] } ∷ []), s);
  list_channels = λ url token id s. (http_error 403, s);
}

abbrev engine : Engine
engine = new_engine (new_ping_wheel (pos 0))

abbrev cached_now : CachedSession
cached_now = record {
  token = ascii "t";
  ws_host = ascii "s";
  api_url = ascii "https://a";
  clan_ids = (48 ∷ []) ∷ [];
  username = [];
  display_name = [];
  fetched = 3;
}

holds_session : (session client bot 0 3 engine 0).engine.sessions bot.key_id ≡ some cached_now
unfolding session cached exchanged new_engine
holds_session = refl

session-session_example :
    session client bot 7 8
      (session client bot 0 3 engine 0).engine
      (session client bot 0 3 engine 0).far
    ≡ session client bot 0 3 engine 0
unfolding is_fresh
session-session_example =
    session-session client bot 0 3 7 8 engine 0 cached_now (omega arith) holds_session refl

abbrev conn : Conn
conn = record { bot_user_id = []; closed = false; ping_cid = 0; pending = []; joined = [] }

abbrev host : Host ℕ
host = record { engine = engine; conns = λ c. conn; far = 0 }

abbrev counted : ℕ → Bytes → ℕ → Option String × ℕ
counted c b s = (none, s + 1)

sync_clans-IsSynced_example :
    IsSynced counted bot.key_id
      (record { id = ascii "5"; name = [] } ∷ [])
      (sync_clans counted (some directory) client bot 0 3 host)
unfolding ascii session cached exchanged new_engine
sync_clans-IsSynced_example =
    sync_clans-IsSynced counted directory client bot 0 3 host cached_now
      (record { id = ascii "5"; name = [] } ∷ []) 1 refl holds_session refl refl

abbrev plain : SendOpts
plain = record { ref = none; mentions = []; mention_everyone = false }

abbrev dials_seven : Bytes → ℕ → Result ℕ × ℕ
dials_seven url s = (ok 7, s)

poller-IsReliable : IsReliable poller recorded until
poller-IsReliable = record { answers = seen_answers; add_channel = add_channel-Keeps }

abbrev untouched : Delivered Memory
untouched = record { state = no_ids; touched = 0; given = [] }

-- Two polls and the socket with the same message give it once.
given_once :
    map
      (λ m. m.message_id)
      (arrive_all poller bot true []
        (poll ∷ frame (message (ascii "31") []) ∷ poll ∷ [])
        untouched).given
    ≡ ascii "31" ∷ ascii "33" ∷ []
unfolding arrive_all channels cursor or_no_cursor set_cursor bump_activity add_channel seen added
    trimmed below new_redis_store k poll_once poll_channel poll_message advance each ascii
given_once = refl

arrive_all_once_example :
    times
          (ascii "31")
          (arrive_all poller bot true []
            (frame (message (ascii "31") []) ∷ poll ∷ [])
            untouched).given
        * 2
      + until bot.key_id (ascii "31") no_ids
    ≤ recorded bot.key_id
        (arrive_all poller bot true []
          (frame (message (ascii "31") []) ∷ poll ∷ [])
          untouched).state
      + 2
arrive_all_once_example =
    arrive_all_once poller 2 recorded until bot true [] (ascii "31")
      (frame (message (ascii "31") []) ∷ poll ∷ []) no_ids poller-Remembers poller-IsReliable
      (unfold ascii in refl)

-- A hot bot with an open socket.
abbrev config : Config ℕ
config = record {
  max_hot = pos 2;
  pressure_hot_cap = pos 1;
  hot_per_tenant = pos 1;
  warm_poll = pos 0;
  cold_poll = pos 0;
  hot_idle = pos 0;
  warm_idle = pos 0;
  tick = pos 0;
  plan_weight = none;
  mem_high_mb = 100;
  mem_low_mb = 0;
}

abbrev entry : Entry ℕ
entry = record { bot = bot; tier = hot; last_activity = 0; rate = 0; score = 0; next_poll = 0 }

abbrev node : Node ℕ
node = record {
  manager = record { cfg = config; bots = entry ∷ [] };
  engine = record engine { hot = update engine.hot "a" (some 3); wheel = add 3 engine.wheel };
  closed = λ c. false;
  dialing = [];
  polls = [];
}

deregister-IsClosed_example :
    (find "a" (deregister "a" node).manager.bots ≡ none) × IsClosed "a" node (deregister "a" node)
deregister-IsClosed_example = deregister-IsClosed "a" node (λ k. ground arith)
