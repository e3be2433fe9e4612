-- ===== src/Tier/Actuator.antt =====
-- lib/tier/manager.go: the Actuator interface and `apply`, and a view of the sockets that an
-- Actuator has open, which notes a call that does not fit it.
use mezon_go_sdk_turbo.Prelude.{String, Bool, true, false, not, ◌||◌, List, [], ◌∷◌, update}
use mezon_go_sdk_turbo.Types.{BotRef}
use mezon_go_sdk_turbo.Tier.Manager.{Action, open_hot, close_hot, poll}

-- An implementation of the interface over a state of its own.
pub record Actuator (S : Type 0) : Type 0 where
  pub opens : BotRef → S → S
  pub closes : String → S → S
  pub polls : BotRef → S → S

module _ {S : Type 0} (act : Actuator S) where
  unfoldable pub perform : Action → S → S
  perform (open_hot bot) s = act.opens bot s
  perform (close_hot key) s = act.closes key s
  perform (poll bot) s = act.polls bot s

  -- `apply`: the calls in order.
  unfoldable pub apply : List Action → S → S
  unfolding perform
  apply [] s = s
  apply (a ∷ as') s = apply as' (perform a s)

-- `live` has the keys with an open socket. A socket is opened where none is, closed where one is,
-- and a bot is polled where it has none; any other call sets `faulted`.
pub record Sockets : Type 0 where
  pub live : String → Bool
  pub faulted : Bool

unfoldable pub open_socket : BotRef → Sockets → Sockets
open_socket bot s = record {
  live = update s.live bot.key_id true;
  faulted = s.faulted || s.live bot.key_id;
}

unfoldable pub close_socket : String → Sockets → Sockets
close_socket key s = record {
  live = update s.live key false;
  faulted = s.faulted || not (s.live key);
}

unfoldable pub poll_bot : BotRef → Sockets → Sockets
poll_bot bot s = record s { faulted = s.faulted || s.live bot.key_id }

abbrev pub sockets : Actuator Sockets
sockets = record { opens = open_socket; closes = close_socket; polls = poll_bot }
