-- ===== src/Poller/Once.antt =====
-- lib/poller/poller.go: the messages that several polls of a bot emit.
use mezon_go_sdk_turbo.Prelude.{
  ℕ, zero, suc, ◌+◌, ◌*◌, ◌≤◌, ◌≡◌, String, false, List, [], ◌++◌, Bytes, is_empty, arith,
}
use mezon_go_sdk_turbo.Types.{BotRef, Message}
use mezon_go_sdk_turbo.Poller.{Poller, poll_once}
use mezon_go_sdk_turbo.Poller.Step.{Remembers, times, cost, cost-append, cost-times, poll_once-Once}

-- So many polls of a bot, one after the other: what the handler was given, and the state.
unfoldable pub poll_times : {S : Type 0} → Poller S → BotRef → Bytes → ℕ → S → List Message × S
poll_times p bot token zero s = ([], s)
poll_times p bot token (suc n) s =
    let first = (poll_once p bot token s).0 in
    let rest = poll_times p bot token n first.state in (first.emitted ++ rest.0, rest.1)

poll_times-cost :
    {S : Type 0} (p : Poller S) (limit : ℕ) (recorded : String → S → ℕ)
    (until : String → Bytes → S → ℕ) (bot : BotRef) (token x : Bytes)
    → Remembers p limit recorded until
    → is_empty x ≡ false
    → (n : ℕ) (s : S)
    → cost limit x (poll_times p bot token n s).0 + until bot.key_id x s
      ≤ until bot.key_id x (poll_times p bot token n s).1
unfolding poll_times
poll_times-cost p limit recorded until bot token x laws named zero s = omega arith
poll_times-cost p limit recorded until bot token x laws named (suc n) s =
    let first = (poll_once p bot token s).0 in
    omega (
      arith,
      cost-append limit x first.emitted (poll_times p bot token n first.state).0,
      poll_once-Once p limit recorded until laws bot x named token s,
      poll_times-cost p limit recorded until bot token x laws named n first.state,
    )

-- A store remembers a message id until it has recorded `limit` newer ones, as RedisStore does with its
-- DedupCap while its TTL does not run out, and records one id at a Seen at most. Whatever the pages
-- that REST returns and whatever calls fail, the polls of a bot give the handler a message id that is not
-- empty once for each `limit` ids at most that the store records: n emissions of it take n - 1 times
-- `limit` recorded ids from the start on, and as many more as the store still remembered it for.
pub poll_times_once :
    {S : Type 0} (p : Poller S) (limit : ℕ) (recorded : String → S → ℕ)
    (until : String → Bytes → S → ℕ) (bot : BotRef) (token x : Bytes) (n : ℕ) (s : S)
    → Remembers p limit recorded until
    → is_empty x ≡ false
    → times x (poll_times p bot token n s).0 * limit + until bot.key_id x s
      ≤ recorded bot.key_id (poll_times p bot token n s).1 + limit
poll_times_once p limit recorded until bot token x n s laws named = omega (
  arith,
  cost-times limit x (poll_times p bot token n s).0,
  poll_times-cost p limit recorded until bot token x laws named n s,
  laws.bounded bot.key_id x (poll_times p bot token n s).1,
)
