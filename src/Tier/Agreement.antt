-- ===== src/Tier/Agreement.antt =====
-- lib/tier/manager.go: the actions of a rebalance against the tiers it sets.
use mezon_go_sdk_turbo.Prelude.{
  ℕ, ◌≡◌, refl, ap, sym, subst, ◌∙◌, String, Bool, true, false, List, [], ◌∷◌, ◌++◌, arith, All,
  All-mono, All-and, All-of_zero, All-of_perm, str_eq_symm, str_eq_self, eq_iff, bool_eq,
  bool_eq-eq, bool_eq_self, count_if, count_if-perm, one_if, str_eq, if◌then◌else◌,
}
use mezon_go_sdk_turbo.Float.{FloatOps}
use mezon_go_sdk_turbo.Types.{Tier, is_hot}
use mezon_go_sdk_turbo.Tier.Config.{Config}
use mezon_go_sdk_turbo.Tier.Score.{Entry, nothing_scored, score_entry}
use mezon_go_sdk_turbo.Tier.Slots.{Slots}
use mezon_go_sdk_turbo.Tier.Manager.{
  Manager, Orders, IsRange, Action, rebalance_locked, settle, settle_actions, target, settle_all,
  all_actions, scored, slots,
}
use mezon_go_sdk_turbo.Tier.Conserve.{settle_tier, settle_bot}
use mezon_go_sdk_turbo.Tier.Calls.{has_key}
use mezon_go_sdk_turbo.Tier.Keys.{
  Distinct, IsMap, scored-Distinct, count_if-scored, count_if-rebalance_locked,
}
use mezon_go_sdk_turbo.Tier.Members.{score_all-entries}
use mezon_go_sdk_turbo.Tier.Actuator.{
  Actuator, apply, perform, Sockets, sockets, open_socket, close_socket, poll_bot,
}

apply-append :
    {S : Type 0} (act : Actuator S) (xs ys : List Action) (s : S)
    → apply act (xs ++ ys) s ≡ apply act ys (apply act xs s)
unfolding apply
apply-append act [] ys s = refl
apply-append act (x ∷ xs) ys s = apply-append act xs ys (perform act x s)

module _ {Float : Type 0} where
  abbrev pub matches : Sockets → Entry Float → Bool
  matches s e = bool_eq (s.live e.bot.key_id) (is_hot e.tier)

  -- Steps 4 and 5 on one bot, whose socket is as its tier says.
  settle_live :
      (now : ℕ) (t : Tier) (e : Entry Float) (s : Sockets) (k : String)
      → s.live e.bot.key_id ≡ is_hot e.tier
      → (apply sockets (settle_actions now t e) s).live k
        ≡ (if str_eq e.bot.key_id k then is_hot t else s.live k)
  unfolding settle_actions apply open_socket close_socket poll_bot
  settle_live now t e s k h = ground (arith, eq_iff e.bot.key_id k)

  settle_faulted :
      (now : ℕ) (t : Tier) (e : Entry Float) (s : Sockets)
      → s.live e.bot.key_id ≡ is_hot e.tier
      → (apply sockets (settle_actions now t e) s).faulted ≡ s.faulted
  unfolding settle_actions apply open_socket close_socket poll_bot
  settle_faulted now t e s h = ground (arith, str_eq_self e.bot.key_id)

  rest_matches :
      (now : ℕ) (t : Tier) (e : Entry Float) (es : List (Entry Float)) (k : Sockets)
      → Distinct (e ∷ es)
      → All (λ x. matches k x ≡ true) (e ∷ es)
      → All (λ x. matches (apply sockets (settle_actions now t e) k) x ≡ true) es
  rest_matches now t e es k d all =
      All-mono (λ x. (matches k x ≡ true) × (has_key e.bot.key_id x ≡ false))
        (λ x. matches (apply sockets (settle_actions now t e) k) x ≡ true)
        (λ x (same, other).
          let live = settle_live now t e k x.bot.key_id (bool_eq-eq _ _ all.0) in
          let miss : str_eq e.bot.key_id x.bot.key_id ≡ false = str_eq_symm _ _ ∙ other in
          rw (live, miss) same)
        es
        (All-and (λ x. matches k x ≡ true) (λ x. has_key e.bot.key_id x ≡ false) es all.1
          (All-of_zero (has_key e.bot.key_id) es
            (omega (arith, d e.bot.key_id, ap one_if (str_eq_self e.bot.key_id)))))

  -- The actions leave the sockets of other keys alone.
  all_actions_other :
      (now : ℕ) (s : Slots) (es : List (Entry Float)) (k : Sockets) (key : String)
      → Distinct es
      → All (λ e. matches k e ≡ true) es
      → count_if (has_key key) es ≡ 0
      → (apply sockets (all_actions now s es) k).live key ≡ k.live key
  unfolding all_actions
  all_actions_other now s [] k key d all h = unfold apply in refl
  all_actions_other now s (e ∷ es) k key d all h =
      let t = target s e in
      let k' = apply sockets (settle_actions now t e) k in
      let miss : str_eq e.bot.key_id key ≡ false = ground arith in
      let live = settle_live now t e k key (bool_eq-eq _ _ all.0) in
      rw (apply-append sockets (settle_actions now t e) (all_actions now s es) k) (
        all_actions_other now s es k' key (λ j. omega (arith, d j))
          (rest_matches now t e es k d all) (omega arith)
        ∙ live
        ∙ rw miss)

  -- The actions of steps 4 and 5 bring the sockets in line, and each fits the sockets that it meets.
  all_actions_match :
      (c : Config Float) (now : ℕ) (s : Slots) (es : List (Entry Float)) (k : Sockets)
      → Distinct es
      → All (λ e. matches k e ≡ true) es
      → All (λ e. matches (apply sockets (all_actions now s es) k) e ≡ true) (settle_all c now s es)
  unfolding all_actions settle_all
  all_actions_match c now s [] k d all = tt
  all_actions_match c now s (e ∷ es) k d all =
      let t = target s e in
      let k' = apply sockets (settle_actions now t e) k in
      let rest : All (λ x. matches k' x ≡ true) es = rest_matches now t e es k d all in
      let once : Distinct es = λ j. omega (arith, d j) in
      subst (λ z. All (λ x. matches z x ≡ true) (settle c now t e ∷ settle_all c now s es))
        (sym (apply-append sockets (settle_actions now t e) (all_actions now s es) k))
        (
          rw
              (
                settle_tier,
                settle_bot,
                all_actions_other now s es k' e.bot.key_id once rest
                    (omega (arith, d e.bot.key_id, ap one_if (str_eq_self e.bot.key_id))),
                settle_live now t e k e.bot.key_id (bool_eq-eq _ _ all.0),
                str_eq_self,
              )
              (bool_eq_self (is_hot t)),
          all_actions_match c now s es k' once rest,
        )

  all_actions_faulted :
      (now : ℕ) (s : Slots) (es : List (Entry Float)) (k : Sockets)
      → Distinct es
      → All (λ e. matches k e ≡ true) es
      → (apply sockets (all_actions now s es) k).faulted ≡ k.faulted
  unfolding all_actions
  all_actions_faulted now s [] k d all = unfold apply in refl
  all_actions_faulted now s (e ∷ es) k d all =
      let t = target s e in
      rw (apply-append sockets (settle_actions now t e) (all_actions now s es) k) (
        all_actions_faulted now s es (apply sockets (settle_actions now t e) k)
          (λ j. omega (arith, d j)) (rest_matches now t e es k d all)
        ∙ settle_faulted now t e k (bool_eq-eq _ _ all.0))

  -- The sockets are those of the hot bots.
  pub record Agrees (k : Sockets) (m : Manager Float) : Type 0 where
    pub of_bots : All (λ e. matches k e ≡ true) m.bots
    pub of_others : (key : String) → count_if (has_key key) m.bots ≡ 0 → k.live key ≡ false

module _ {Float : Type 0} ⦃f : FloatOps Float⦄ (o : Orders Float) (now mem : ℕ) (m : Manager Float)
    (r : IsRange o) (d : IsMap m) (k : Sockets) (a : Agrees k m) where
  range_matches : All (λ e. matches k e ≡ true) (o.reconcile (scored o now m).entries)
  range_matches = All-of_perm (matches k) (r.reconcile (scored o now m).entries) (
      unfold scored score_entry in
      score_all-entries (λ e. matches k e ≡ true) m.cfg now (o.scoring m.bots) nothing_scored
        (All-of_perm (matches k) (r.scoring m.bots) a.of_bots) tt)

  range-Distinct : Distinct (o.reconcile (scored o now m).entries)
  range-Distinct key =
      let es = (scored o now m).entries in
      omega (arith, count_if-perm (has_key key) (r.reconcile es), scored-Distinct o now m r d key)

  pub rebalance_locked-Agrees :
      Agrees (apply sockets (rebalance_locked o now mem m).1 k) (rebalance_locked o now mem m).0
  rebalance_locked-Agrees =
      let s = slots o now mem m in
      let es = (scored o now m).entries in
      record {
        of_bots =
            unfold rebalance_locked in
            all_actions_match m.cfg now s (o.reconcile es) k range-Distinct range_matches;
        of_others = λ key none_left.
            let unheld : count_if (has_key key) m.bots ≡ 0 =
              sym (count_if-rebalance_locked (λ b. str_eq b.key_id key) o now mem m r)
              ∙ none_left in
            let gone : count_if (has_key key) (o.reconcile es) ≡ 0 =
              count_if-perm (has_key key) (r.reconcile es)
              ∙ count_if-scored (λ b. str_eq b.key_id key) o now m r
              ∙ unheld in
            unfold rebalance_locked in
            (all_actions_other now s (o.reconcile es) k key range-Distinct range_matches gone
              ∙ a.of_others key unheld);
      }

  pub rebalance_locked_faulted :
      (apply sockets (rebalance_locked o now mem m).1 k).faulted ≡ k.faulted
  unfolding rebalance_locked
  rebalance_locked_faulted =
      all_actions_faulted now (slots o now mem m) (o.reconcile (scored o now m).entries) k
        range-Distinct range_matches
