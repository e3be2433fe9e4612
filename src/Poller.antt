-- ===== src/Poller.antt =====
-- lib/poller/poller.go: PollOnce. `S` is the state of everything outside the poller: the store, the
-- REST server and the rate limiter. A panic of the handler is recovered and changes nothing here.
pub mod Step
pub mod Once
pub mod Pool
pub mod Bounded
pub mod Memory
pub mod Tests
use mezon_go_sdk_turbo.Prelude.{
  ℕ, suc, ◌+◌, String, Bool, true, false, not, ◌&&◌, List, [], ◌∷◌, ◌++◌, Option, none, some, Bytes,
  is_empty, bytes_eq, ltb, if◌then◌else◌,
}
use mezon_go_sdk_turbo.Types.{BotRef, Message}
use mezon_go_sdk_turbo.State.{Result, ok, err, Store}

-- The Lister, on a token, a channel, a clan, a cursor and a limit, and the rate limiter's Wait.
pub record Remote (S : Type 0) : Type 0 where
  pub list_since : Bytes → Bytes → Bytes → Bytes → ℕ → S → Result (List Message × Bytes) × S
  pub wait : S → Option String × S

-- The fields of the Poller; `on_message` says whether there is a handler,
-- and `now` what time.Now answers in seconds.
pub record Poller (S : Type 0) : Type 0 where
  pub store : Store S
  pub remote : Remote S
  pub on_message : Bool
  pub page_limit : ℕ
  pub now : ℕ

-- What a poll has done: the state, the count, and the messages that the handler was given.
pub record Progress (S : Type 0) : Type 0 where
  pub state : S
  pub found : ℕ
  pub emitted : List Message

-- A loop whose round may return with an error.
unfoldable pub each :
    {S A : Type 0}
    → (A → Progress S → Progress S × Option String)
    → List A
    → Progress S
    → Progress S × Option String
each round [] g = (g, none)
each round (x ∷ xs) g = elim (round x g).1 [
  | some e ↦ ((round x g).0, some e)
  | none ↦ each round xs (round x g).0
]

module _ {S : Type 0} (p : Poller S) (bot : BotRef) where
  -- A new message.
  unfoldable pub emit : Message → S → Progress S → Progress S
  emit m s g = record {
    state = s;
    found = suc g.found;
    emitted = if p.on_message then g.emitted ++ (m ∷ []) else g.emitted;
  }

  -- A message of another sender, by what Seen answers.
  unfoldable pub by_seen : Message → Progress S → Result Bool × S → Progress S × Option String
  unfolding emit
  by_seen m g (err e, s) = (record g { state = s }, some e)
  by_seen m g (ok true, s) = (record g { state = s }, none)
  by_seen m g (ok false, s) = (emit m s g, none)

  -- One round of the loop over a page.
  unfoldable pub poll_message : Message → Progress S → Progress S × Option String
  unfolding by_seen
  poll_message m g =
      if bytes_eq m.sender_id bot.bot_user_id
      then (g, none)
      else by_seen m g (p.store.seen bot.key_id m.message_id g.state)

  -- `for _, m := range msgs`, with the error that it returns.
  unfoldable pub poll_messages : List Message → Progress S → Progress S × Option String
  unfolding each poll_message
  poll_messages ms g = each poll_message ms g

  -- The cursor that is stored after a page.
  unfoldable pub advance : Bytes → Bytes → Bytes → Progress S → Progress S × Option String
  advance ch cursor new_cursor g =
      if not (is_empty new_cursor) && not (bytes_eq new_cursor cursor)
      then (let (e, s) = p.store.set_cursor bot.key_id ch new_cursor g.state in
          (record g { state = s }, e))
      else (g, none)

  unfoldable pub after_messages :
      Bytes → Bytes → Bytes → Progress S × Option String → Progress S × Option String
  unfolding advance
  after_messages ch cursor new_cursor (g, some e) = (g, some e)
  after_messages ch cursor new_cursor (g, none) = advance ch cursor new_cursor g

  -- A page, or the error of ListSince, which is left for the next poll.
  unfoldable pub on_page :
      Bytes → Bytes → Progress S → Result (List Message × Bytes) × S → Progress S × Option String
  unfolding after_messages poll_messages
  on_page ch cursor g (err e, s) = (record g { state = s }, none)
  on_page ch cursor g (ok (ms, new_cursor), s) =
      after_messages ch cursor new_cursor (poll_messages ms (record g { state = s }))

  unfoldable pub on_cursor :
      Bytes → Bytes → Progress S → Result Bytes × S → Progress S × Option String
  unfolding on_page
  on_cursor token ch g (err e, s) = (record g { state = s }, some e)
  on_cursor token ch g (ok cursor, s) =
      on_page ch cursor g (p.remote.list_since token ch [] cursor p.page_limit s)

  unfoldable pub on_wait :
      Bytes → Bytes → Progress S → Option String × S → Progress S × Option String
  unfolding on_cursor
  on_wait token ch g (some e, s) = (record g { state = s }, some e)
  on_wait token ch g (none, s) = on_cursor token ch g (p.store.cursor bot.key_id ch s)

  -- One round of the loop over the channels.
  unfoldable pub poll_channel : Bytes → Bytes → Progress S → Progress S × Option String
  unfolding on_wait
  poll_channel token ch g = on_wait token ch g (p.remote.wait g.state)

  unfoldable pub poll_channels : Bytes → List Bytes → Progress S → Progress S × Option String
  unfolding each poll_channel
  poll_channels token chs g = each (poll_channel token) chs g

  -- The activity after the loop, whose error is dropped; an error has returned before it.
  unfoldable pub finish : Progress S × Option String → Progress S × Option String
  finish (g, some e) = (g, some e)
  finish (g, none) = (
    if ltb 0 g.found
        then record g { state = (p.store.bump_activity bot.key_id p.now g.state).1 }
        else g,
    none,
  )

  unfoldable pub on_channels : Bytes → Result (List Bytes) × S → Progress S × Option String
  unfolding finish poll_channels
  on_channels token (err e, s) = (record { state = s; found = 0; emitted = [] }, some e)
  on_channels token (ok chs, s) =
      finish (poll_channels token chs (record { state = s; found = 0; emitted = [] }))

  -- `PollOnce`: the count is `found` of the result.
  unfoldable pub poll_once : Bytes → S → Progress S × Option String
  unfolding on_channels
  poll_once token s = on_channels token (p.store.channels bot.key_id s)
