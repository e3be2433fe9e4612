-- ===== src/Turbo/Tiers/Reached.antt =====
-- lib/turbo/turbo.go: the sockets of the bots in every history of an engine and its manager, where
-- each event runs to its end before the next.
use mezon_go_sdk_turbo.Prelude.{
  ℕ, ◌==◌, ◌≡◌, refl, ap, ◌∙◌, String, true, false, [], none, some, count_if, count_if_same, arith,
  All, All-mono, bool_eq-eq,
}
use mezon_go_sdk_turbo.Prelude.Int.{ℤ}
use mezon_go_sdk_turbo.Float.{FloatOps}
use mezon_go_sdk_turbo.Types.{warm, is_hot}
use mezon_go_sdk_turbo.Tier.Config.{Config}
use mezon_go_sdk_turbo.Tier.Manager.{Manager, Orders, IsRange, new}
use mezon_go_sdk_turbo.Tier.Calls.{has_key, hot_count, Call, touches, step, force_tier, forces}
use mezon_go_sdk_turbo.Tier.Keys.{IsMap, CallIsRange, step-IsMap}
use mezon_go_sdk_turbo.Tier.Actuator.{apply, Sockets, sockets, close_socket}
use mezon_go_sdk_turbo.Tier.Agreement.{matches, Agrees}
use mezon_go_sdk_turbo.Tier.History.{NoForce, step-Agrees}
use mezon_go_sdk_turbo.Tier.Forced.{force_tier-Agrees}
use mezon_go_sdk_turbo.Ws.PingWheel.{new_ping_wheel}
use mezon_go_sdk_turbo.Turbo.{new_engine}
use mezon_go_sdk_turbo.Turbo.Hot.{evicted, on_close}
use mezon_go_sdk_turbo.Turbo.Register.{Node, called, rearmed, dial_succeeds, dial_fails, conn_lost}
use mezon_go_sdk_turbo.Turbo.Tiers.{Refines, holds, shut, Refines-alike, apply-Refines}
use mezon_go_sdk_turbo.Turbo.Tiers.Landed.{
  apply_manager, dial_succeeds-Refines, dial_succeeds_manager, dial_fails-Refines, lost_node,
  lost_node-Refines,
}

module _ {Float : Type 0} where
  -- What New builds.
  abbrev pub new_node : ⦃f : FloatOps Float⦄ → Config Float → ℤ → Node Float
  new_node cfg ping = record {
    manager = new cfg;
    engine = new_engine (new_ping_wheel ping);
    closed = λ c. false;
    dialing = [];
    polls = [];
  }

  -- The sockets are those that the tiers say.
  record IsTiered (n : Node Float) : Type 0 where
    sockets : Sockets
    refines : Refines n sockets
    agrees : Agrees sockets n.manager
    is_map : IsMap n.manager

module _ {Float : Type 0} ⦃f : FloatOps Float⦄ where
  conn_lost_node :
      (o : Orders Float) (now mem : ℕ) (key : String) (c : ℕ) (n : Node Float)
      → n.engine.hot key ≡ some c
      → conn_lost o now mem key c n ≡ called (touches o now mem key) (lost_node key c n)
  unfolding conn_lost on_close
  conn_lost_node o now mem key c n held =
      let closed : Node Float = record n { closed = shut c n.closed } in
      let at : shut c n.closed c ≡ true = ground arith in
      ap (λ r. rearmed o now mem key closed (evicted (shut c n.closed) key r n.engine)) held
      ∙ rw at refl

  called-IsTiered :
      (c : Call Float) (n : Node Float)
      → CallIsRange c
      → NoForce c
      → IsTiered n
      → IsTiered (called c n)
  unfolding called
  called-IsTiered c n r calm h =
      let r' = step n.manager c in
      let n' : Node Float = record n { manager = r'.0 } in
      record {
        sockets = apply sockets r'.1 h.sockets;
        refines =
            apply-Refines r'.1 n' h.sockets
              (Refines-alike n n' h.sockets (λ k. refl) (λ k. refl) (λ d. refl) h.refines);
        agrees =
            rw (apply_manager r'.1 n')
              (step-Agrees n.manager h.sockets c r calm h.is_map h.agrees).0;
        is_map = rw (apply_manager r'.1 n') (step-IsMap n.manager c r h.is_map);
      }

  forced-IsMap : (key : String) (m : Manager Float) → IsMap m → IsMap (force_tier key warm m)
  forced-IsMap key m d = unfold step in step-IsMap m (forces key warm) tt d

  -- The histories: a call of the manager, a dial that succeeds or fails, or a Conn that is lost.
  pub data Reach (cfg : Config Float) (ping : ℤ) : Node Float → Type 0 where
    begin : Reach cfg ping (new_node cfg ping)
    call_step :
        (c : Call Float) {n : Node Float}
        → CallIsRange c
        → NoForce c
        → Reach cfg ping n
        → Reach cfg ping (called c n)
    dialed_step :
        (key : String) (c : ℕ) {n : Node Float}
        → n.closed c ≡ false
        → ((k : String) (d : ℕ) → n.engine.hot k ≡ some d → (c == d) ≡ false)
        → Reach cfg ping n
        → Reach cfg ping (dial_succeeds key c n)
    failed_step :
        (key : String) {n : Node Float}
        → n.engine.hot key ≡ none
        → Reach cfg ping n
        → Reach cfg ping (dial_fails key n)
    lost_step :
        (o : Orders Float) (now mem : ℕ) (key : String) (c : ℕ) {n : Node Float}
        → IsRange o
        → n.engine.hot key ≡ some c
        → Reach cfg ping n
        → Reach cfg ping (conn_lost o now mem key c n)

  begin-IsTiered : (cfg : Config Float) (ping : ℤ) → IsTiered (new_node cfg ping)
  unfolding new new_engine
  begin-IsTiered cfg ping = record {
    sockets = record { live = λ k. false; faulted = false };
    refines = record {
      node = record {
        live = λ k c had. absurd (ground (arith, had));
        apart = λ k c had. refl;
        unshared = λ j k c had has. absurd (ground (arith, had));
      };
      same = λ k. refl;
    };
    agrees = record { of_bots = tt; of_others = λ key none_left. refl };
    is_map = λ k. omega arith;
  }

  lost-IsTiered :
      (o : Orders Float) (now mem : ℕ) (key : String) (c : ℕ) (n : Node Float)
      → IsRange o
      → n.engine.hot key ≡ some c
      → IsTiered n
      → IsTiered (conn_lost o now mem key c n)
  lost-IsTiered o now mem key c n r held h = rw (conn_lost_node o now mem key c n held) (
      called-IsTiered (touches o now mem key) (lost_node key c n) r tt (record {
        sockets = close_socket key h.sockets;
        refines = lost_node-Refines key c n h.sockets h.refines held;
        agrees = force_tier-Agrees key warm refl h.sockets n.manager h.is_map h.agrees;
        is_map = forced-IsMap key n.manager h.is_map;
      }))

  dialed-IsTiered :
      (key : String) (c : ℕ) (n : Node Float)
      → n.closed c ≡ false
      → ((k : String) (d : ℕ) → n.engine.hot k ≡ some d → (c == d) ≡ false)
      → IsTiered n
      → IsTiered (dial_succeeds key c n)
  dialed-IsTiered key c n up fresh h = record {
    sockets = h.sockets;
    refines = dial_succeeds-Refines key c n h.sockets h.refines up fresh;
    agrees = rw (dial_succeeds_manager key c n) h.agrees;
    is_map = rw (dial_succeeds_manager key c n) h.is_map;
  }

  failed-IsTiered :
      (key : String) (n : Node Float)
      → n.engine.hot key ≡ none
      → IsTiered n
      → IsTiered (dial_fails key n)
  failed-IsTiered key n absent h = record {
    sockets = close_socket key h.sockets;
    refines = dial_fails-Refines key n h.sockets h.refines absent;
    agrees =
        unfold dial_fails in
        (force_tier-Agrees key warm refl h.sockets n.manager h.is_map h.agrees);
    is_map = unfold dial_fails in (forced-IsMap key n.manager h.is_map);
  }

  Reach-IsTiered : {cfg : Config Float} {ping : ℤ} {n : Node Float} → Reach cfg ping n → IsTiered n
  Reach-IsTiered {cfg} {ping} begin = begin-IsTiered cfg ping
  Reach-IsTiered (call_step c {n} r calm before) =
      called-IsTiered c n r calm (Reach-IsTiered before)
  Reach-IsTiered (dialed_step key c {n} up fresh before) =
      dialed-IsTiered key c n up fresh (Reach-IsTiered before)
  Reach-IsTiered (failed_step key {n} absent before) =
      failed-IsTiered key n absent (Reach-IsTiered before)
  Reach-IsTiered (lost_step o now mem key c {n} r held before) =
      lost-IsTiered o now mem key c n r held (Reach-IsTiered before)

  -- The bots that hold a socket, or for which one is dialed, are the hot ones.
  pub record HoldsHot (n : Node Float) : Type 0 where
    pub of_bots : All (λ e. holds n e.bot.key_id ≡ is_hot e.tier) n.manager.bots
    pub of_others : (key : String) → count_if (has_key key) n.manager.bots ≡ 0 → holds n key ≡ false
    pub counted : count_if (λ e. holds n e.bot.key_id) n.manager.bots ≡ hot_count n.manager

  -- In every history of an engine with its manager as New makes them, of calls other than ForceTier
  -- (which the engine makes only when a dial fails or a connection is lost), dials that succeed or
  -- fail, and connections that are lost, where each event runs to its end before the next, no
  -- dial of a bot fails while it has a connection, and each range visits every entry once: a bot of
  -- the manager has a live connection, or one is dialed for it, exactly if its tier is Hot; a key
  -- that the manager does not know has none; and HotCount is how many bots have one.
  pub Reach-HoldsHot :
      {cfg : Config Float} {ping : ℤ} {n : Node Float} → Reach cfg ping n → HoldsHot n
  Reach-HoldsHot {n = n} r =
      let h = Reach-IsTiered r in
      let same : All (λ e. holds n e.bot.key_id ≡ is_hot e.tier) n.manager.bots =
        All-mono (λ e. matches h.sockets e ≡ true) (λ e. holds n e.bot.key_id ≡ is_hot e.tier)
          (λ e same.
            h.refines.same e.bot.key_id
            ∙ bool_eq-eq (h.sockets.live e.bot.key_id) (is_hot e.tier) same)
          n.manager.bots h.agrees.of_bots in
      record {
        of_bots = same;
        of_others = λ key none_left. h.refines.same key ∙ h.agrees.of_others key none_left;
        counted =
            unfold hot_count in
            (count_if_same (λ e. holds n e.bot.key_id) (λ e. is_hot e.tier) n.manager.bots same);
      }
