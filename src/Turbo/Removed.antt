-- ===== src/Turbo/Removed.antt =====
-- lib/turbo/turbo.go: what Deregister leaves.
use mezon_go_sdk_turbo.Prelude.{
  ℕ, ◌≡◌, refl, ap, subst, ◌==◌, ◌∙◌, inl, inr, String, Bool, true, false, List, [], ◌∷◌, Option,
  none, some, count_if, update, update_self, str_eq, arith, Bool-cases, if◌then◌else◌,
}
use mezon_go_sdk_turbo.Types.{is_hot}
use mezon_go_sdk_turbo.Tier.Score.{Entry}
use mezon_go_sdk_turbo.Tier.Manager.{Action}
use mezon_go_sdk_turbo.Tier.Calls.{has_key, find, delete, close_if_hot, remove}
use mezon_go_sdk_turbo.Tier.Keys.{IsMap, count_if-delete_key}
use mezon_go_sdk_turbo.Tier.Actuator.{apply}
use mezon_go_sdk_turbo.Ws.PingWheel.{has}
use mezon_go_sdk_turbo.Ws.PingWheel.Tick.{has-remove}
use mezon_go_sdk_turbo.Turbo.{Engine}
use mezon_go_sdk_turbo.Turbo.Hot.{
  After, nothing, spawn, demote, close, rearm, after_close, close_hot, unwheel,
}
use mezon_go_sdk_turbo.Turbo.Frame.{is_the_conn}
use mezon_go_sdk_turbo.Turbo.Register.{Node, with_closing, closes_hot, engine_actuator, deregister}

module _ {Float : Type 0} where
  find_absent :
      (k : String) (es : List (Entry Float)) → count_if (has_key k) es ≡ 0 → find k es ≡ none
  unfolding find
  find_absent k [] h = refl
  find_absent k (e ∷ es) h = ground (arith, h, find_absent k es)

  -- A bot is gone from the sockets: it has no Conn and none is dialed for it, the Conn that it had
  -- is closed and off the ping wheel. Every other Conn is open or closed, and on the wheel or off it,
  -- as it was; so are the maps for other bots, the goroutines that dial and the polls.
  pub record IsClosed (key : String) (n k : Node Float) : Type 0 where
    pub unopened : k.engine.hot key ≡ none
    pub undialed : k.engine.opening key ≡ false
    pub shut :
        (c : ℕ)
        → n.engine.hot key ≡ some c
        → (k.closed c ≡ true) × (has k.engine.wheel.conns c ≡ false)
    pub spared :
        (key' : String)
        → str_eq key key' ≡ false
        → (k.engine.hot key' ≡ n.engine.hot key')
          × ((k.engine.opening key' ≡ n.engine.opening key')
              × (k.engine.sessions key' ≡ n.engine.sessions key'))
    pub others :
        (d : ℕ)
        → is_the_conn (n.engine.hot key) d ≡ false
        → (k.closed d ≡ n.closed d) × (has k.engine.wheel.conns d ≡ has n.engine.wheel.conns d)
    pub goroutines : (k.dialing ≡ n.dialing) × (k.polls ≡ n.polls)

  -- What closes_hot does where `o` is registered.
  abbrev closes_at : String → Node Float → Option ℕ → Node Float
  closes_at key n o = with_closing n (
    record n.engine {
      hot = update n.engine.hot key none;
      opening = update n.engine.opening key false;
    },
    after_close o,
  )

  closes_at-IsClosed :
      (key : String) (n : Node Float) (o : Option ℕ)
      → n.engine.hot key ≡ o
      → IsClosed key n (closes_at key n o)
  unfolding unwheel
  closes_at-IsClosed key n none held = record {
    unopened = update_self n.engine.hot key none;
    undialed = update_self n.engine.opening key false;
    shut = λ c other. absurd (ground (arith, held, other));
    spared = λ key' differ. rw differ (refl, (refl, refl));
    others = λ d other. (refl, refl);
    goroutines = (refl, refl);
  }
  closes_at-IsClosed key n (some c) held = record {
    unopened = update_self n.engine.hot key none;
    undialed = update_self n.engine.opening key false;
    shut = λ d same.
        let e : c ≡ d = ground (arith, held, same) in
        (ground (arith, e), ground (arith, e, has-remove c d n.engine.wheel));
    spared = λ key' differ. rw differ (refl, (refl, refl));
    others = λ d other.
        let differ : (c == d) ≡ false = subst (λ o. is_the_conn o d ≡ false) held other in
        (rw differ refl, ground (arith, differ, has-remove c d n.engine.wheel));
    goroutines = (refl, refl);
  }

  closes_hot-IsClosed : (key : String) (n : Node Float) → IsClosed key n (closes_hot key n)
  unfolding closes_hot close_hot
  closes_hot-IsClosed key n = closes_at-IsClosed key n (n.engine.hot key) refl

  IsClosed-again :
      (key : String) (n k : Node Float) (o : Option ℕ)
      → k.engine.hot key ≡ o
      → IsClosed key n k
      → IsClosed key n (closes_at key k o)
  IsClosed-again key n k none held h = record {
    unopened = update_self k.engine.hot key none;
    undialed = update_self k.engine.opening key false;
    shut = h.shut;
    spared = λ key' differ. rw differ (h.spared key' differ);
    others = h.others;
    goroutines = h.goroutines;
  }
  IsClosed-again key n k (some c) held h = absurd (ground (arith, held, h.unopened))

  closes_twice :
      (key : String) (n : Node Float) → IsClosed key n (closes_hot key (closes_hot key n))
  unfolding closes_hot close_hot
  closes_twice key n = IsClosed-again key n _ _ refl (closes_hot-IsClosed key n)

  removed_if :
      (key : String) (n : Node Float) (b : Bool)
      → IsClosed key n
          (closes_hot key (apply engine_actuator (if b then Action.close_hot key ∷ [] else []) n))
  unfolding apply
  removed_if key n true = closes_twice key n
  removed_if key n false = closes_hot-IsClosed key n

  removed :
      (key : String) (n : Node Float) (o : Option (Entry Float))
      → IsClosed key n (closes_hot key (apply engine_actuator (close_if_hot o key) n))
  unfolding apply close_if_hot
  removed key n none = closes_hot-IsClosed key n
  removed key n (some e) = removed_if key n (is_hot e.tier)

  with_closing_manager :
      (n : Node Float) (r : Engine × After) → (with_closing n r).manager ≡ n.manager
  with_closing_manager n (e, close c) = refl
  with_closing_manager n (e, nothing) = refl
  with_closing_manager n (e, spawn) = refl
  with_closing_manager n (e, demote) = refl
  with_closing_manager n (e, rearm) = refl

  pub closes_hot_manager : (key : String) (n : Node Float) → (closes_hot key n).manager ≡ n.manager
  unfolding closes_hot
  closes_hot_manager key n = with_closing_manager n (close_hot key n.engine)

  removed_manager :
      (key : String) (n : Node Float) (o : Option (Entry Float))
      → (apply engine_actuator (close_if_hot o key) n).manager ≡ n.manager
  unfolding apply close_if_hot
  removed_manager key n none = refl
  removed_manager key n (some e) = elim (Bool-cases (is_hot e.tier)) [
    | inl is ↦ rw is (closes_hot_manager key n)
    | inr other ↦ rw other refl
  ]

  -- After Deregister, on a manager whose map holds each key once, the manager does not know the bot,
  -- the bot has no connection and none is dialed for it, and the connection that it had is closed
  -- and off the ping wheel. Each other connection is open or closed, and on the wheel or off it, as
  -- it was, and other bots have the connections, dials and sessions that they had.
  pub deregister-IsClosed :
      (key : String) (n : Node Float)
      → IsMap n.manager
      → (find key (deregister key n).manager.bots ≡ none) × IsClosed key n (deregister key n)
  unfolding deregister remove
  deregister-IsClosed key n d =
      let o = find key n.manager.bots in
      let n' : Node Float = record n {
        manager = record n.manager { bots = delete key n.manager.bots };
      } in
      let shut = removed key n' o in
      let gone =
        find_absent key (delete key n.manager.bots) (count_if-delete_key key n.manager.bots d) in
      (
        ap (λ m. find key m.bots)
              (closes_hot_manager key (apply engine_actuator (close_if_hot o key) n')
                ∙ removed_manager key n' o)
            ∙ gone,
        record {
          unopened = shut.unopened;
          undialed = shut.undialed;
          shut = shut.shut;
          spared = shut.spared;
          others = shut.others;
          goroutines = shut.goroutines;
        },
      )
