-- ===== src/Turbo/Deliver.antt =====
-- lib/turbo/turbo.go: what reaches the consumer, from the socket and from polls. `S` is the state of
-- the store and the servers. The store calls of `deliver` for polled messages come after the poll
-- here; PollOnce has read the channels by then. A handler that panics changes nothing here.
use mezon_go_sdk_turbo.Prelude.{
  ℕ, ◌+◌, ◌*◌, ◌≤◌, ◌≡◌, ap, subst, inl, inr, String, Bool, true, false, List, [], ◌∷◌, ◌++◌, Bytes,
  is_empty, bytes_eq, bytes_eq-eq, arith, Bool-cases, if◌then◌else◌,
}
use mezon_go_sdk_turbo.Types.{BotRef, Message}
use mezon_go_sdk_turbo.State.{Result, ok, err, Store}
use mezon_go_sdk_turbo.Poller.{Poller, poll_once}
use mezon_go_sdk_turbo.Poller.Step.{
  Keeps, Remembers, times, cost, cost-append, cost-times, poll_once-Once,
}

-- A message that is delivered: AddChannel, Touch on the manager, and the handler.
pub record Delivered (S : Type 0) : Type 0 where
  pub state : S
  pub touched : ℕ
  pub given : List Message

-- `handled` says whether there is an onMessage.
module _ {S : Type 0} (store : Store S) (bot : BotRef) (handled : Bool) where
  unfoldable pub deliver : Message → Delivered S → Delivered S
  deliver m d = record {
    state = (store.add_channel bot.key_id m.channel_id d.state).1;
    touched = d.touched + 1;
    given = if handled then d.given ++ (m ∷ []) else d.given;
  }

  -- onHotMessage by what Seen answers, whose error it drops.
  abbrev by_answer : Message → Delivered S → Result Bool × S → Delivered S
  by_answer m d (ok true, s) = record d { state = s }
  by_answer m d (ok false, s) = deliver m (record d { state = s })
  by_answer m d (err e, s) = deliver m (record d { state = s })

  unfoldable pub on_hot_message : Message → Delivered S → Delivered S
  unfolding deliver
  on_hot_message m d = by_answer m d (store.seen bot.key_id m.message_id d.state)

  unfoldable pub deliver_all : List Message → Delivered S → Delivered S
  unfolding deliver
  deliver_all [] d = d
  deliver_all (m ∷ ms) d = deliver_all ms (deliver m d)

-- A frame of the socket with a message, or a poll.
pub data Arrival : Type 0 where
  frame : Message → Arrival
  poll : Arrival

module _ {S : Type 0} (p : Poller S) (bot : BotRef) (handled : Bool) (token : Bytes) where
  unfoldable pub arrive : Arrival → Delivered S → Delivered S
  unfolding on_hot_message deliver_all poll_once
  arrive (frame m) d = on_hot_message p.store bot handled m d
  arrive poll d =
      let g = (poll_once p bot token d.state).0 in
      deliver_all p.store bot handled g.emitted (record d { state = g.state })

  unfoldable pub arrive_all : List Arrival → Delivered S → Delivered S
  unfolding arrive
  arrive_all [] d = d
  arrive_all (a ∷ as') d = arrive_all as' (arrive a d)

-- The store of a bot answers Seen without errors, and AddChannel forgets and records no id.
pub record IsReliable {S : Type 0} (p : Poller S) (recorded : String → S → ℕ)
    (until : String → Bytes → S → ℕ) : Type 0 where
  pub answers :
      (key : String) (x : Bytes) (s : S)
      → (b : Bool) × ((t : S) × (p.store.seen key x s ≡ (ok b, t)))
  pub add_channel :
      (key : String) (ch : Bytes) (s : S)
      → Keeps recorded until 0 s (p.store.add_channel key ch s).1

module _ {S : Type 0} (p : Poller S) (limit : ℕ) (recorded : String → S → ℕ)
    (until : String → Bytes → S → ℕ) (laws : Remembers p limit recorded until)
    (sure : IsReliable p recorded until) (bot : BotRef) (handled : Bool) (token x : Bytes)
    (named : is_empty x ≡ false) where
  abbrev holds : S → ℕ
  holds s = until bot.key_id x s

  -- From `d` to `e` a delivery of `x` is paid for by `limit` ids.
  abbrev Once : Delivered S → Delivered S → Type 0
  Once d e = cost limit x e.given + holds d.state ≤ cost limit x d.given + holds e.state

  cost-deliver :
      (m : Message) (d : Delivered S)
      → cost limit x (deliver p.store bot handled m d).given
        ≤ cost limit x d.given + (if bytes_eq m.message_id x then limit else 0)
  unfolding deliver
  cost-deliver m d = elim (Bool-cases handled) [
    | inl some_handler ↦ rw some_handler (omega (arith, cost-append limit x d.given (m ∷ [])))
    | inr none_there ↦ rw none_there (omega arith)
  ]

  holds-deliver :
      (m : Message) (d : Delivered S)
      → holds d.state ≤ holds (deliver p.store bot handled m d).state
  unfolding deliver
  holds-deliver m d = (sure.add_channel bot.key_id m.channel_id d.state bot.key_id x).0

  deliver_all-le :
      (ms : List Message) (d : Delivered S)
      → (cost limit x (deliver_all p.store bot handled ms d).given
          ≤ cost limit x d.given + cost limit x ms)
        × (holds d.state ≤ holds (deliver_all p.store bot handled ms d).state)
  unfolding deliver_all
  deliver_all-le [] d = (omega arith, omega arith)
  deliver_all-le (m ∷ ms) d =
      let rest = deliver_all-le ms (deliver p.store bot handled m d) in
      (omega (arith, rest.0, cost-deliver m d), omega (arith, rest.1, holds-deliver m d))

  answered-Once :
      (m : Message) (d : Delivered S) (b : Bool) (t : S)
      → p.store.seen bot.key_id m.message_id d.state ≡ (ok b, t)
      → Once d (by_answer p.store bot handled m d (ok b, t))
  answered-Once m d true t h =
      omega
        (arith, (laws.seen bot.key_id m.message_id d.state bot.key_id x).0, ap (λ o. holds o.1) h)
  answered-Once m d false t h =
      let after : Delivered S = record d { state = t } in
      elim (Bool-cases (bytes_eq m.message_id x)) [
        | inl same ↦
            let e = bytes_eq-eq m.message_id x same in
            let asked = subst (λ y. p.store.seen bot.key_id y d.state ≡ (ok false, t)) e h in
            omega (
              arith,
              cost-deliver m after,
              holds-deliver m after,
              ap (λ b. if b then limit else 0) same,
              laws.fresh bot.key_id x d.state t named asked,
            )
        | inr other ↦ omega (
          arith,
          cost-deliver m after,
          holds-deliver m after,
          ap (λ b. if b then limit else 0) other,
          (laws.seen bot.key_id m.message_id d.state bot.key_id x).0,
          ap (λ o. holds o.1) h,
        )
      ]

  arrive-Once : (a : Arrival) (d : Delivered S) → Once d (arrive p bot handled token a d)
  unfolding arrive
  arrive-Once (frame m) d =
      let (b, (t, h)) = sure.answers bot.key_id m.message_id d.state in
      unfold on_hot_message in (rw h (answered-Once m d b t h))
  arrive-Once poll d =
      let g = (poll_once p bot token d.state).0 in
      let all = deliver_all-le g.emitted (record d { state = g.state }) in
      omega
        (arith, all.0, all.1, poll_once-Once p limit recorded until laws bot x named token d.state)

  arrive_all-Once :
      (as' : List Arrival) (d : Delivered S) → Once d (arrive_all p bot handled token as' d)
  unfolding arrive_all
  arrive_all-Once [] d = omega arith
  arrive_all-Once (a ∷ as') d =
      omega (arith, arrive-Once a d, arrive_all-Once as' (arrive p bot handled token a d))

-- A store remembers a message id until it has recorded `limit` newer ones, as RedisStore does with its
-- DedupCap while its TTL does not run out, records one id at a Seen at most, and its Seen answers
-- without an error. Whatever frames the socket gives and whatever the polls between them do, the
-- consumer gets a message id that is not empty once for each `limit` ids at most that the store
-- records: n deliveries of it take n - 1 times `limit` recorded ids from the start on, and as many
-- more as the store still remembered it for.
pub arrive_all_once :
    {S : Type 0} (p : Poller S) (limit : ℕ) (recorded : String → S → ℕ)
    (until : String → Bytes → S → ℕ) (bot : BotRef) (handled : Bool) (token x : Bytes)
    (as' : List Arrival) (s : S)
    → Remembers p limit recorded until
    → IsReliable p recorded until
    → is_empty x ≡ false
    → times x
            (arrive_all p bot handled token as'
              (record { state = s; touched = 0; given = [] })).given
          * limit
        + until bot.key_id x s
      ≤ recorded bot.key_id
          (arrive_all p bot handled token as' (record { state = s; touched = 0; given = [] })).state
        + limit
arrive_all_once {S = S} p limit recorded until bot handled token x as' s laws sure named =
    let start : Delivered S = record { state = s; touched = 0; given = [] } in
    let end = arrive_all p bot handled token as' start in
    omega (
      arith,
      cost-times limit x end.given,
      arrive_all-Once p limit recorded until laws sure bot handled token x named as' start,
      laws.bounded bot.key_id x end.state,
    )
