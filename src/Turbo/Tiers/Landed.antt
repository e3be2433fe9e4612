-- ===== src/Turbo/Tiers/Landed.antt =====
-- lib/turbo/turbo.go: a dial that succeeds or fails, and a Conn that is lost, as the manager sees
-- them.
use mezon_go_sdk_turbo.Prelude.{
  ℕ, ◌==◌, ◌≡◌, refl, ap, sym, subst, ◌∙◌, inl, inr, ◌⊎◌, String, Bool, true, false, ◌||◌, List, [],
  ◌∷◌, Option, none, some, update, str_eq, str_eq_self, str_eq-eq, arith, Bool-cases, Option-cases,
  if◌then◌else◌,
}
use mezon_go_sdk_turbo.Types.{BotRef, warm}
use mezon_go_sdk_turbo.Tier.Manager.{Action}
use mezon_go_sdk_turbo.Tier.Calls.{force_tier}
use mezon_go_sdk_turbo.Tier.Actuator.{apply, perform, Sockets, close_socket}
use mezon_go_sdk_turbo.Ws.PingWheel.{add, remove}
use mezon_go_sdk_turbo.Turbo.{Engine}
use mezon_go_sdk_turbo.Turbo.Hot.{
  After, unwheel, nothing, spawn, demote, close, rearm, is_live, register, dial_failed,
}
use mezon_go_sdk_turbo.Turbo.Register.{
  Node, with_opening, engine_actuator, opens_hot, polls_bot, registered_or_closed, dial_succeeds,
  dial_fails,
}
use mezon_go_sdk_turbo.Turbo.Removed.{closes_hot_manager}
use mezon_go_sdk_turbo.Turbo.Tiers.{Refines, shut, set_live, closed_at, Refines-alike}

-- Where an entry of a map that was set is from.
set_entry :
    (hot : String → Option ℕ) (key k : String) (c d : ℕ)
    → update hot key (some c) k ≡ some d
    → ((str_eq key k ≡ true) × (c ≡ d)) ⊎ ((str_eq key k ≡ false) × (hot k ≡ some d))
set_entry hot key k c d had = elim (Bool-cases (str_eq key k)) [
  | inl same ↦ inl (same, ground (arith, same, had))
  | inr other ↦ inr (other, ground (arith, other, had))
]

is_live-fresh :
    (closed : ℕ → Bool) (c : ℕ) (o : Option ℕ)
    → ((d : ℕ) → o ≡ some d → (c == d) ≡ false)
    → is_live (shut c closed) o ≡ is_live closed o
is_live-fresh closed c none fresh = refl
is_live-fresh closed c (some d) fresh = rw (fresh d refl) refl

module _ {Float : Type 0} where
  with_opening_manager :
      (bot : BotRef) (n : Node Float) (r : Engine × After)
      → (with_opening bot n r).manager ≡ n.manager
  with_opening_manager bot n (e, spawn) = refl
  with_opening_manager bot n (e, nothing) = refl
  with_opening_manager bot n (e, demote) = refl
  with_opening_manager bot n (e, close c) = refl
  with_opening_manager bot n (e, rearm) = refl

  perform_manager :
      (a : Action) (n : Node Float) → (perform engine_actuator a n).manager ≡ n.manager
  unfolding perform opens_hot polls_bot
  perform_manager (Action.open_hot bot) n = with_opening_manager bot n _
  perform_manager (Action.close_hot key) n = closes_hot_manager key n
  perform_manager (Action.poll bot) n = refl

  pub apply_manager :
      (as' : List Action) (n : Node Float) → (apply engine_actuator as' n).manager ≡ n.manager
  unfolding apply
  apply_manager [] n = refl
  apply_manager (a ∷ as') n = apply_manager as' _ ∙ perform_manager a n

  -- The registration of a Conn that is dialed.
  landed :
      (key : String) (c : ℕ) (n : Node Float) (s : Sockets) (wanted held : Bool)
      → Refines n s
      → n.closed c ≡ false
      → ((k : String) (d : ℕ) → n.engine.hot k ≡ some d → (c == d) ≡ false)
      → n.engine.opening key ≡ wanted
      → is_live n.closed (n.engine.hot key) ≡ held
      → Refines
          (registered_or_closed n (
            if wanted
            then (if held
                then (record n.engine { opening = update n.engine.opening key false }, close c)
                else (
                  record n.engine {
                    opening = update n.engine.opening key false;
                    hot = update n.engine.hot key (some c);
                    wheel = add c n.engine.wheel;
                  },
                  nothing,
                ))
            else (n.engine, close c)))
          s
  landed key c n s true true h up fresh wants has = elim (Option-cases (n.engine.hot key)) [
    | inl absent ↦ absurd (ground (arith, absent, has))
    | inr (d, had) ↦ absurd (ground (arith, wants, h.node.apart key d had))
  ]
  landed key c n s true false h up fresh wants has = record {
    node = record {
      live = λ k d had. elim (set_entry n.engine.hot key k c d had) [
        | inl (same, e) ↦ subst (λ x. n.closed x ≡ false) e up
        | inr (other, was) ↦ h.node.live k d was
      ];
      apart = λ k d had. elim (set_entry n.engine.hot key k c d had) [
        | inl (same, e) ↦ rw same refl
        | inr (other, was) ↦ rw other (h.node.apart k d was)
      ];
      unshared = λ j k d had has'. elim (set_entry n.engine.hot key j c d had) [
        | inl (same, e) ↦ elim (set_entry n.engine.hot key k c d has') [
          | inl (same', e') ↦ rw (← (str_eq-eq key j same)) same'
          | inr (other, was) ↦ absurd (ground (arith, e, fresh k d was))
        ]
        | inr (other, was) ↦ elim (set_entry n.engine.hot key k c d has') [
          | inl (same, e) ↦ absurd (ground (arith, e, fresh j d was))
          | inr (other', was') ↦ h.node.unshared j k d was was'
        ]
      ];
    };
    same = λ k. elim (Bool-cases (str_eq key k)) [
      | inl same ↦
          let before : s.live k ≡ true =
            sym (h.same k) ∙ rw (← (str_eq-eq key k same)) (ground (arith, wants)) in
          rw (same, before) (ground (arith, up))
      | inr other ↦ rw other (h.same k)
    ];
  }
  landed key c n s false held h up fresh wants has = record {
    node = record {
      live = λ k d had. rw (fresh k d had) (h.node.live k d had);
      apart = h.node.apart;
      unshared = h.node.unshared;
    };
    same = λ k.
        ap (λ b. b || n.engine.opening k) (is_live-fresh n.closed c (n.engine.hot k) (fresh k))
        ∙ h.same k;
  }

  pub dial_succeeds-Refines :
      (key : String) (c : ℕ) (n : Node Float) (s : Sockets)
      → Refines n s
      → n.closed c ≡ false
      → ((k : String) (d : ℕ) → n.engine.hot k ≡ some d → (c == d) ≡ false)
      → Refines (dial_succeeds key c n) s
  unfolding dial_succeeds register
  dial_succeeds-Refines key c n s h up fresh = landed key c n s _ _ h up fresh refl refl

  landed_manager :
      (n : Node Float) (r : Engine × After) → (registered_or_closed n r).manager ≡ n.manager
  landed_manager n (e, close c) = refl
  landed_manager n (e, nothing) = refl
  landed_manager n (e, spawn) = refl
  landed_manager n (e, demote) = refl
  landed_manager n (e, rearm) = refl

  pub dial_succeeds_manager :
      (key : String) (c : ℕ) (n : Node Float) → (dial_succeeds key c n).manager ≡ n.manager
  unfolding dial_succeeds
  dial_succeeds_manager key c n = landed_manager n (register n.closed key c n.engine)

  -- The engine without a socket or a dial of a key.
  pub dial_fails-Refines :
      (key : String) (n : Node Float) (s : Sockets)
      → Refines n s
      → n.engine.hot key ≡ none
      → Refines (dial_fails key n) (close_socket key s)
  unfolding dial_fails dial_failed close_socket
  dial_fails-Refines key n s h absent = record {
    node = record {
      live = h.node.live;
      apart = λ k c had. elim (Bool-cases (str_eq key k)) [
        | inl same ↦ rw same refl
        | inr other ↦ rw other (h.node.apart k c had)
      ];
      unshared = h.node.unshared;
    };
    same =
        set_live n s key false
          (λ k. is_live n.closed (n.engine.hot k) || update n.engine.opening key false k) h
          (rw (absent, str_eq_self key) refl) (λ k other. rw other refl);
  }

  -- The node without the Conn `c` of a key, and with its bot demoted.
  abbrev pub lost_node : String → ℕ → Node Float → Node Float
  lost_node key c n = record n {
    engine = record n.engine {
      hot = update n.engine.hot key none;
      wheel = remove c n.engine.wheel;
      sessions = update n.engine.sessions key none;
    };
    closed = shut c n.closed;
    manager = force_tier key warm n.manager;
  }

  pub lost_node-Refines :
      (key : String) (c : ℕ) (n : Node Float) (s : Sockets)
      → Refines n s
      → n.engine.hot key ≡ some c
      → Refines (lost_node key c n) (close_socket key s)
  unfolding unwheel
  lost_node-Refines key c n s h held =
      Refines-alike _ (lost_node key c n) (close_socket key s) (λ k. refl)
        (λ k. elim (Bool-cases (str_eq key k)) [
          | inl same ↦ rw (same, ← (str_eq-eq key k same)) (h.node.apart key c held)
          | inr other ↦ rw other refl
        ])
        (λ d. refl) (closed_at key n s (some c) h held)
