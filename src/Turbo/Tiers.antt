-- ===== src/Turbo/Tiers.antt =====
-- lib/turbo/turbo.go: the engine as the Actuator of its manager: which bots have a socket.
pub mod Landed
pub mod Reached
mod Tests
use mezon_go_sdk_turbo.Prelude.{
  ℕ, ◌+◌, ◌≤◌, ◌==◌, ◌≡◌, refl, ap, sym, ◌∙◌, inl, inr, String, Bool, true, false, ◌||◌, List, [],
  ◌∷◌, Option, none, some, count_if, update, str_eq, eq_iff, str_eq-eq, str_eq_self, arith,
  Bool-cases, Option-cases, if◌then◌else◌,
}
use mezon_go_sdk_turbo.Types.{BotRef}
use mezon_go_sdk_turbo.Tier.Manager.{Manager, Action}
use mezon_go_sdk_turbo.Tier.Actuator.{
  apply, perform, Sockets, sockets, open_socket, close_socket, poll_bot,
}
use mezon_go_sdk_turbo.Turbo.{Engine}
use mezon_go_sdk_turbo.Turbo.Hot.{
  After, nothing, spawn, demote, close, rearm, is_live, after_close, open_hot, close_hot, unwheel,
  register,
}
use mezon_go_sdk_turbo.Turbo.Register.{
  Node, with_opening, with_closing, opens_hot, closes_hot, polls_bot, engine_actuator,
}

-- A bot has a live socket, or one is dialed for it.
abbrev pub holds : {Float : Type 0} → Node Float → String → Bool
holds n k = is_live n.closed (n.engine.hot k) || n.engine.opening k

-- The Conns that are registered are open, each for one bot, and for a bot that has one none is
-- dialed.
pub record IsNode {Float : Type 0} (n : Node Float) : Type 0 where
  pub live : (k : String) (c : ℕ) → n.engine.hot k ≡ some c → n.closed c ≡ false
  pub apart : (k : String) (c : ℕ) → n.engine.hot k ≡ some c → n.engine.opening k ≡ false
  pub unshared :
      (j k : String) (c : ℕ) → n.engine.hot j ≡ some c → n.engine.hot k ≡ some c → str_eq j k ≡ true

-- The sockets as the manager sees them.
pub record Refines {Float : Type 0} (n : Node Float) (s : Sockets) : Type 0 where
  pub node : IsNode n
  pub same : (k : String) → holds n k ≡ s.live k

abbrev pub shut : ℕ → (ℕ → Bool) → ℕ → Bool
shut c closed d = if c == d then true else closed d

pub cut :
    (hot : String → Option ℕ) (key k : String) (c : ℕ)
    → update hot key none k ≡ some c
    → (str_eq key k ≡ false) × (hot k ≡ some c)
cut hot key k c had = elim (Bool-cases (str_eq key k)) [
  | inl same ↦ absurd (ground (arith, same, had))
  | inr other ↦ (other, ground (arith, other, had))
]

is_live_alike : (f g : ℕ → Bool) (o : Option ℕ) → ((d : ℕ) → f d ≡ g d) → is_live f o ≡ is_live g o
is_live_alike f g none same = refl
is_live_alike f g (some c) same = rw (same c) refl

module _ {Float : Type 0} where
  -- A view of the sockets after one key was set.
  pub set_live :
      (n : Node Float) (s : Sockets) (key : String) (b : Bool) (hold : String → Bool)
      → Refines n s
      → hold key ≡ b
      → ((k : String) → str_eq key k ≡ false → hold k ≡ holds n k)
      → (k : String) → hold k ≡ update s.live key b k
  set_live n s key b hold h here others k = elim (Bool-cases (str_eq key k)) [
    | inl same ↦ rw (same, ← (str_eq-eq key k same)) here
    | inr other ↦ rw other (others k other ∙ h.same k)
  ]

  opened_at :
      (bot : BotRef) (n : Node Float) (s : Sockets) (l b : Bool)
      → Refines n s
      → is_live n.closed (n.engine.hot bot.key_id) ≡ l
      → n.engine.opening bot.key_id ≡ b
      → Refines
          (with_opening bot n (
            if l
            then (n.engine, nothing)
            else if b
            then (n.engine, nothing)
            else (record n.engine { opening = update n.engine.opening bot.key_id true }, spawn)))
          (open_socket bot s)
  unfolding open_socket
  opened_at bot n s true b h live opening = record {
    node = h.node;
    same = set_live n s bot.key_id true (holds n) h (ground (arith, live)) (λ k other. refl);
  }
  opened_at bot n s false true h live opening = record {
    node = h.node;
    same = set_live n s bot.key_id true (holds n) h (ground (arith, opening)) (λ k other. refl);
  }
  opened_at bot n s false false h live opening = record {
    node = record {
      live = h.node.live;
      apart = λ k c held. elim (Bool-cases (str_eq bot.key_id k)) [
        | inl same ↦
            let held' = ap n.engine.hot (str_eq-eq bot.key_id k same) ∙ held in
            absurd (ground (arith, held', live, h.node.live bot.key_id c held'))
        | inr other ↦ rw other (h.node.apart k c held)
      ];
      unshared = h.node.unshared;
    };
    same =
        set_live n s bot.key_id true
          (λ k. is_live n.closed (n.engine.hot k) || update n.engine.opening bot.key_id true k) h
          (ground (arith, str_eq_self bot.key_id)) (λ k other. rw other refl);
  }

  opens_hot-Refines :
      (bot : BotRef) (n : Node Float) (s : Sockets)
      → Refines n s
      → Refines (opens_hot bot n) (open_socket bot s)
  unfolding opens_hot open_hot
  opens_hot-Refines bot n s h = opened_at bot n s _ _ h refl refl

  -- A Conn of another key is another.
  pub differs :
      (n : Node Float) (key k : String) (c d : ℕ)
      → IsNode n
      → n.engine.hot key ≡ some c
      → n.engine.hot k ≡ some d
      → str_eq key k ≡ false
      → (c == d) ≡ false
  differs n key k c d h held had other = elim (Bool-cases (c == d)) [
    | inl same ↦
        let e : d ≡ c = ground (arith, same) in
        absurd (ground (arith, other, h.unshared key k c held (had ∙ ap some e)))
    | inr apart ↦ apart
  ]

  pub is_live-shut :
      (n : Node Float) (key k : String) (c : ℕ) (o : Option ℕ)
      → IsNode n
      → n.engine.hot key ≡ some c
      → n.engine.hot k ≡ o
      → str_eq key k ≡ false
      → is_live (shut c n.closed) o ≡ is_live n.closed o
  is_live-shut n key k c none h held had other = refl
  is_live-shut n key k c (some d) h held had other = rw (differs n key k c d h held had other) refl

  -- What closes_hot leaves where `o` is registered.
  pub closed_at :
      (key : String) (n : Node Float) (s : Sockets) (o : Option ℕ)
      → Refines n s
      → n.engine.hot key ≡ o
      → Refines
          (with_closing n (
            record n.engine {
              hot = update n.engine.hot key none;
              opening = update n.engine.opening key false;
            },
            after_close o,
          ))
          (close_socket key s)
  unfolding close_socket unwheel
  closed_at key n s none h held = record {
    node = record {
      live = λ k c had. h.node.live k c (cut n.engine.hot key k c had).1;
      apart = λ k c had.
          let (other, was) = cut n.engine.hot key k c had in rw other (h.node.apart k c was);
      unshared = λ j k c had has.
          h.node.unshared j k c (cut n.engine.hot key j c had).1 (cut n.engine.hot key k c has).1;
    };
    same =
        set_live n s key false
          (λ k.
            is_live n.closed (update n.engine.hot key none k)
            || update n.engine.opening key false k)
          h (ground (arith, str_eq_self key)) (λ k other. rw other refl);
  }
  closed_at key n s (some c) h held = record {
    node = record {
      live = λ k d had.
          let (other, was) = cut n.engine.hot key k d had in
          rw (differs n key k c d h.node held was other) (h.node.live k d was);
      apart = λ k d had.
          let (other, was) = cut n.engine.hot key k d had in rw other (h.node.apart k d was);
      unshared = λ j k d had has.
          h.node.unshared j k d (cut n.engine.hot key j d had).1 (cut n.engine.hot key k d has).1;
    };
    same =
        set_live n s key false
          (λ k.
            is_live (λ d. if c == d then true else n.closed d) (update n.engine.hot key none k)
            || update n.engine.opening key false k)
          h (ground (arith, str_eq_self key))
          (λ k other. rw other (
            ap (λ b. b || n.engine.opening k)
              (is_live-shut n key k c (n.engine.hot k) h.node held refl other)));
  }

  closes_hot-Refines :
      (key : String) (n : Node Float) (s : Sockets)
      → Refines n s
      → Refines (closes_hot key n) (close_socket key s)
  unfolding closes_hot close_hot
  closes_hot-Refines key n s h = closed_at key n s (n.engine.hot key) h refl

  polls_bot-Refines :
      (bot : BotRef) (n : Node Float) (s : Sockets)
      → Refines n s
      → Refines (polls_bot bot n) (poll_bot bot s)
  unfolding polls_bot poll_bot
  polls_bot-Refines bot n s h = record {
    node = record { live = h.node.live; apart = h.node.apart; unshared = h.node.unshared };
    same = h.same;
  }

  perform-Refines :
      (a : Action) (n : Node Float) (s : Sockets)
      → Refines n s
      → Refines (perform engine_actuator a n) (perform sockets a s)
  unfolding perform
  perform-Refines (Action.open_hot bot) n s h = opens_hot-Refines bot n s h
  perform-Refines (Action.close_hot key) n s h = closes_hot-Refines key n s h
  perform-Refines (Action.poll bot) n s h = polls_bot-Refines bot n s h

  -- The engine does for a list of actions what the manager takes it to do.
  pub apply-Refines :
      (as' : List Action) (n : Node Float) (s : Sockets)
      → Refines n s
      → Refines (apply engine_actuator as' n) (apply sockets as' s)
  unfolding apply
  apply-Refines [] n s h = h
  apply-Refines (a ∷ as') n s h = apply-Refines as' _ _ (perform-Refines a n s h)

  -- Only the maps `hot` and `opening` and the closed Conns matter.
  pub Refines-alike :
      (a b : Node Float) (s : Sockets)
      → ((k : String) → b.engine.hot k ≡ a.engine.hot k)
      → ((k : String) → b.engine.opening k ≡ a.engine.opening k)
      → ((d : ℕ) → b.closed d ≡ a.closed d)
      → Refines a s
      → Refines b s
  Refines-alike a b s hots openings closes h = record {
    node = record {
      live = λ k c had. closes c ∙ h.node.live k c (sym (hots k) ∙ had);
      apart = λ k c had. openings k ∙ h.node.apart k c (sym (hots k) ∙ had);
      unshared = λ j k c had has. h.node.unshared j k c (sym (hots j) ∙ had) (sym (hots k) ∙ has);
    };
    same = λ k.
        rw (hots k, openings k)
          (ap (λ b. b || a.engine.opening k)
              (is_live_alike b.closed a.closed (a.engine.hot k) closes)
            ∙ h.same k);
  }
