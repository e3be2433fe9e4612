-- ===== src/Turbo/Register.antt =====
-- lib/turbo/turbo.go: Register, AddChannel, Deregister and Poll, and the engine as the Actuator of
-- its tier manager. A call of the manager and the calls of the Actuator after it follow each other.
use mezon_go_sdk_turbo.Prelude.{
  ℕ, ◌==◌, String, Bool, true, List, [], ◌∷◌, ◌++◌, Option, Bytes, if◌then◌else◌,
}
use mezon_go_sdk_turbo.Float.{FloatOps}
use mezon_go_sdk_turbo.Types.{BotRef, warm}
use mezon_go_sdk_turbo.State.{Store}
use mezon_go_sdk_turbo.Tier.Manager.{Manager, Orders, Action}
use mezon_go_sdk_turbo.Tier.Calls.{add, remove, touch, rebalance, force_tier, Call, touches, step}
use mezon_go_sdk_turbo.Tier.Actuator.{Actuator, apply}
use mezon_go_sdk_turbo.Poller.Pool.{Pool, submits}
use mezon_go_sdk_turbo.Turbo.{Engine}
use mezon_go_sdk_turbo.Turbo.Hot.{
  After, nothing, spawn, demote, close, rearm, open_hot, close_hot, unwheel, register, dial_failed,
  on_close,
}
use mezon_go_sdk_turbo.Turbo.Session.{Client, Routed, session}

-- The engine with its manager: `closed` is what Closed answers of each Conn, `dialing` has the bots
-- whose goroutine was started, and `polls` those that Poll was called for.
pub record Node (Float : Type 0) : Type 0 where
  pub manager : Manager Float
  pub engine : Engine
  pub closed : ℕ → Bool
  pub dialing : List BotRef
  pub polls : List BotRef

abbrev pub with_opening : {Float : Type 0} → BotRef → Node Float → Engine × After → Node Float
with_opening bot n (e, spawn) = record n { engine = e; dialing = n.dialing ++ (bot ∷ []) }
with_opening bot n (e, nothing) = record n { engine = e }
with_opening bot n (e, demote) = record n { engine = e }
with_opening bot n (e, close c) = record n { engine = e }
with_opening bot n (e, rearm) = record n { engine = e }

-- After the critical section of CloseHot, on the Conn that was registered.
abbrev pub with_closing : {Float : Type 0} → Node Float → Engine × After → Node Float
with_closing n (e, close c) = record n {
  engine = unwheel c e;
  closed = λ d. if c == d then true else n.closed d;
}
with_closing n (e, nothing) = record n { engine = e }
with_closing n (e, spawn) = record n { engine = e }
with_closing n (e, demote) = record n { engine = e }
with_closing n (e, rearm) = record n { engine = e }

module _ {Float : Type 0} where
  unfoldable pub opens_hot : BotRef → Node Float → Node Float
  unfolding open_hot
  opens_hot bot n = with_opening bot n (open_hot n.closed bot.key_id n.engine)

  -- `CloseHot`
  unfoldable pub closes_hot : String → Node Float → Node Float
  unfolding close_hot unwheel
  closes_hot key n = with_closing n (close_hot key n.engine)

  unfoldable pub polls_bot : BotRef → Node Float → Node Float
  polls_bot bot n = record n { polls = n.polls ++ (bot ∷ []) }

  abbrev pub engine_actuator : Actuator (Node Float)
  engine_actuator = record { opens = opens_hot; closes = closes_hot; polls = polls_bot }

  -- A call of the manager with its actions.
  abbrev pub managed : Node Float → Manager Float × List Action → Node Float
  managed n (m, acts) = apply engine_actuator acts (record n { manager = m })

  unfoldable pub deregister : String → Node Float → Node Float
  unfolding closes_hot remove apply
  deregister key n = closes_hot key (managed n (remove key n.manager))

module _ {Float : Type 0} ⦃f : FloatOps Float⦄ where
  -- `Register`, at the time `now`.
  unfoldable pub register_bot : ℕ → BotRef → Node Float → Node Float
  unfolding add
  register_bot now bot n = record n { manager = add now bot n.manager }

  -- The Touch of `deliver` and of onClose, and a tick of Run.
  unfoldable pub touched : Orders Float → ℕ → ℕ → String → Node Float → Node Float
  unfolding touch apply
  touched o now mem key n = managed n (touch o now mem key n.manager)

  unfoldable pub ticked : Orders Float → ℕ → ℕ → Node Float → Node Float
  unfolding rebalance apply
  ticked o now mem n = managed n (rebalance o now mem n.manager)

-- `AddChannel`
unfoldable pub add_channel : {S : Type 0} → Store S → String → Bytes → S → Option String × S
add_channel store key channel_id s = store.add_channel key channel_id s

-- `Poll`: the session, and a call of Submit with its token.
unfoldable pub poll_with_session :
    {F : Type 0} → Client F → BotRef → ℕ → ℕ → Engine → F → Pool → Bytes × Routed F × Pool
unfolding session submits
poll_with_session cl bot now fetched e s p =
    let r = session cl bot now fetched e s in (r.route.token, r, submits p)

-- What happens to a node besides calls: each event with all that the code does for it.
module _ {Float : Type 0} where
  -- The goroutine of OpenHot has dialed `c` and registers it, or closes it.
  abbrev pub registered_or_closed : Node Float → Engine × After → Node Float
  registered_or_closed n (e, close c) = record n {
    engine = e;
    closed = λ d. if c == d then true else n.closed d;
  }
  registered_or_closed n (e, nothing) = record n { engine = e }
  registered_or_closed n (e, spawn) = record n { engine = e }
  registered_or_closed n (e, demote) = record n { engine = e }
  registered_or_closed n (e, rearm) = record n { engine = e }

  unfoldable pub dial_succeeds : String → ℕ → Node Float → Node Float
  unfolding register
  dial_succeeds key c n = registered_or_closed n (register n.closed key c n.engine)

  -- Its dial has failed: the session and the mark go, and the bot is demoted.
  unfoldable pub dial_fails : String → Node Float → Node Float
  unfolding dial_failed force_tier
  dial_fails key n = record n {
    engine = (dial_failed key n.engine).0;
    manager = force_tier key warm n.manager;
  }

module _ {Float : Type 0} ⦃f : FloatOps Float⦄ where
  -- A call of the manager, with its actions.
  unfoldable pub called : Call Float → Node Float → Node Float
  unfolding step apply
  called c n = managed n (step n.manager c)

  -- What follows an eviction: ForceTier and Touch.
  abbrev pub rearmed : Orders Float → ℕ → ℕ → String → Node Float → Engine × After → Node Float
  rearmed o now mem key n (e, rearm) =
      called (touches o now mem key)
        (record n { engine = e; manager = force_tier key warm n.manager })
  rearmed o now mem key n (e, nothing) = record n { engine = e }
  rearmed o now mem key n (e, spawn) = record n { engine = e }
  rearmed o now mem key n (e, demote) = record n { engine = e }
  rearmed o now mem key n (e, close c) = record n { engine = e }

  -- The read loop of the Conn `c` ends, and its onClose runs.
  unfoldable pub conn_lost : Orders Float → ℕ → ℕ → String → ℕ → Node Float → Node Float
  unfolding on_close called force_tier
  conn_lost o now mem key c n =
      let shut : Node Float = record n { closed = λ d. if c == d then true else n.closed d } in
      rearmed o now mem key shut (on_close shut.closed key n.engine)
