-- ===== src/Poller/Tests.antt =====
-- Polls over a store in memory, on pages that repeat a message.
use mezon_go_sdk_turbo.Prelude.{
  ◌+◌, ◌*◌, ◌≤◌, ◌≡◌, refl, true, false, List, [], ◌∷◌, map, none, Bytes, ascii,
}
use mezon_go_sdk_turbo.Types.{BotRef, Message}
use mezon_go_sdk_turbo.State.{ok}
use mezon_go_sdk_turbo.Poller.{Poller, each, poll_message, advance, poll_channel, poll_once}
use mezon_go_sdk_turbo.Poller.Pool.{submit_step, start_step, end_step, new_pool, pool_steps}
use mezon_go_sdk_turbo.Poller.Bounded.{IsBounded, pool_steps-IsBounded}
use mezon_go_sdk_turbo.Poller.Memory.{Memory, small_store, no_ids, recorded, until}
use mezon_go_sdk_turbo.Poller.Memory.Laws.{until_bounded, until_fresh, seen-Keeps, Keeps_same}
use mezon_go_sdk_turbo.State.RedisStore.{
  k, seen, added, trimmed, below, channels, cursor, or_no_cursor, set_cursor, bump_activity,
  new_redis_store,
}
use mezon_go_sdk_turbo.Poller.Step.{Remembers, times}
use mezon_go_sdk_turbo.Poller.Once.{poll_times, poll_times_once}

abbrev pub message : Bytes → Bytes → Message
message id sender = record {
  channel_id = [];
  clan_id = [];
  message_id = id;
  sender_id = sender;
  content = [];
  mentions = [];
  attachments = [];
  references = [];
  username = [];
  avatar = [];
  display_name = [];
  clan_nick = [];
  channel_label = [];
  mode = 0;
  is_public = false;
}

-- A page with a message twice, and one of the bot itself.
abbrev page : List Message
page =
    message (ascii "31") (ascii "5")
    ∷ message (ascii "32") (ascii "9")
    ∷ message (ascii "31") (ascii "5")
    ∷ message (ascii "33") (ascii "6")
    ∷ []

-- A RedisStore in memory.
abbrev pub poller : Poller Memory
poller = record {
  store = small_store;
  remote = record {
    list_since = λ token ch clan c limit s. (ok (page, ascii "33"), s);
    wait = λ s. (none, s);
  };
  on_message = true;
  page_limit = 20;
  now = 0;
}

abbrev pub bot : BotRef
bot = record {
  key_id = "a";
  tenant_id = "acme";
  bot_user_id = ascii "9";
  bot_token = 116 ∷ [];
  workspace_id = "";
  bot_version_id = "";
  plan = "pro";
  bot_username = [];
  bot_display_name = [];
  channel_triggers = [];
  command_prefixes = [];
}

-- The second poll emits nothing.
two_polls :
    map (λ m. m.message_id) (poll_times poller bot [] 2 no_ids).0 ≡ ascii "31" ∷ ascii "33" ∷ []
unfolding channels cursor or_no_cursor set_cursor bump_activity seen added trimmed below
    new_redis_store k poll_times poll_once poll_channel poll_message advance each ascii
two_polls = refl

pub poller-Remembers : Remembers poller 2 recorded until
unfolding channels cursor or_no_cursor set_cursor bump_activity
poller-Remembers = record {
  bounded = until_bounded;
  fresh = until_fresh;
  seen = seen-Keeps;
  channels = λ key s. Keeps_same s;
  cursor = λ key ch s. Keeps_same s;
  set_cursor = λ key ch c s. Keeps_same s;
  bump_activity = λ key at s. Keeps_same s;
  list_since = λ token ch clan c limit s. Keeps_same s;
  wait = λ s. Keeps_same s;
}

poll_times_once_example :
    times (ascii "31") (poll_times poller bot [] 2 no_ids).0 * 2 + until "a" (ascii "31") no_ids
    ≤ recorded "a" (poll_times poller bot [] 2 no_ids).1 + 2
poll_times_once_example =
    poll_times_once poller 2 recorded until bot [] (ascii "31") 2 no_ids poller-Remembers
      (unfold ascii in refl)

-- Two workers and three polls.
pool_steps-IsBounded_example : IsBounded 2 (
    pool_steps
      (submit_step
        ∷ submit_step
        ∷ submit_step
        ∷ start_step 1
        ∷ start_step 0
        ∷ start_step 2
        ∷ end_step 1
        ∷ start_step 2
        ∷ [])
      (new_pool 2))
pool_steps-IsBounded_example = pool_steps-IsBounded 2 (
    submit_step
    ∷ submit_step
    ∷ submit_step
    ∷ start_step 1
    ∷ start_step 0
    ∷ start_step 2
    ∷ end_step 1
    ∷ start_step 2
    ∷ [])
