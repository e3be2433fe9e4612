-- ===== src/Tier/Conserve.antt =====
-- lib/tier/manager.go: the bots that rebalanceLocked leaves without a socket, and why.
use mezon_go_sdk_turbo.Prelude.{
  ℕ, ◌≤◌, ◌<◌, ◌≡◌, refl, sym, ◌∙◌, ◌⊎◌, inl, inr, String, Bool, true, false, ◌&&◌, List, [], ◌∷◌,
  arith, All, All-mono, All-of_every, All-of_perm, Perm, length, contains, count_if, count_if-perm,
  Bool-cases,
}
use mathlib.Core.List.Perm
use mezon_go_sdk_turbo.Prelude.Int.{ℤ, pos, pos_part, ◌≤ℤ◌}
use mezon_go_sdk_turbo.Float.{FloatOps}
use mezon_go_sdk_turbo.Types.{BotRef, Tier, hot, warm, cold, is_hot}
use mezon_go_sdk_turbo.Tier.Config.{Config, eff_hot}
use mezon_go_sdk_turbo.Tier.Score.{Entry}
use mezon_go_sdk_turbo.Tier.Slots.{Slots, capped, has_room}
use mezon_go_sdk_turbo.Tier.Manager.{
  Manager, Orders, IsRange, rebalance_locked, settle, target, target_of, settle_all, hot_slots,
  scored, slots,
}
use mezon_go_sdk_turbo.Tier.Keys.{IsMap}
use mezon_go_sdk_turbo.Tier.Budget.{in_slots}
use mezon_go_sdk_turbo.Tier.Members.{same_tenant}
use mezon_go_sdk_turbo.Tier.Fairness.{seated}
use mezon_go_sdk_turbo.Tier.Exact.{IsExact}
use mezon_go_sdk_turbo.Tier.Ready.{slots-IsExact}
use mezon_go_sdk_turbo.Tier.Spare.{served, Served, spare_slots_serves}

module _ {Float : Type 0} where
  is_hot-target :
      (s : Slots) (e : Entry Float)
      → ((k : String) → contains s.selected k ≡ true → s.want k ≡ hot)
      → is_hot (target s e) ≡ in_slots s.selected e
  unfolding target
  is_hot-target s e w = elim (Bool-cases (contains s.selected e.bot.key_id)) [
    | inl held ↦ rw (held, w e.bot.key_id held)
    | inr out ↦ rw out (not_selected (s.want e.bot.key_id))
  ]
    where
      not_selected : (t : Tier) → is_hot (target_of t false) ≡ false
      not_selected hot = refl
      not_selected warm = refl
      not_selected cold = refl

  pub settle_tier :
      (c : Config Float) (now : ℕ) (t : Tier) (e : Entry Float) → (settle c now t e).tier ≡ t
  unfolding settle
  settle_tier c now t e = ground arith

  pub settle_bot :
      (c : Config Float) (now : ℕ) (t : Tier) (e : Entry Float) → (settle c now t e).bot ≡ e.bot
  unfolding settle
  settle_bot c now t e = ground arith

  -- After steps 4 and 5 exactly the bots with a slot are hot.
  count_if-settled_hot :
      (c : Config Float) (now : ℕ) (s : Slots) (es : List (Entry Float)) (q : BotRef → Bool)
      → ((k : String) → contains s.selected k ≡ true → s.want k ≡ hot)
      → count_if (λ e. q e.bot && is_hot e.tier) (settle_all c now s es)
        ≡ count_if (λ e. q e.bot && in_slots s.selected e) es
  unfolding settle_all
  count_if-settled_hot c now s [] q w = refl
  count_if-settled_hot c now s (e ∷ es) q w =
      rw (settle_tier, settle_bot, is_hot-target s e w)
        (omega (arith, count_if-settled_hot c now s es q w))

  -- The reasons for a bot to have no socket: the budget is used up, or its tenant is at the cap.
  abbrev pub LeftOut : Config Float → ℤ → List (Entry Float) → Entry Float → Type 0
  LeftOut c eff es e =
      (eff ≤ℤ pos (count_if (λ x. is_hot x.tier) es))
      ⊎ ((0 < pos_part c.hot_per_tenant)
          × (pos_part c.hot_per_tenant
              ≤ count_if (λ x. same_tenant e.bot.tenant_id x.bot && is_hot x.tier) es))

  capped-full :
      (c : Config Float) (s : Slots) (e : Entry Float)
      → capped c s e ≡ true
      → (0 < pos_part c.hot_per_tenant) × (pos_part c.hot_per_tenant ≤ s.per_tenant e.bot.tenant_id)
  unfolding capped
  capped-full c s e h = ground arith

module _ {Float : Type 0} (c : Config Float) (eff : ℤ) (now : ℕ) (s : Slots)
    (es : List (Entry Float)) (i : IsExact es s) (xs : List (Entry Float)) (p : Perm xs es) where
  abbrev settled : List (Entry Float)
  settled = settle_all c now s xs

  settled_hot : count_if (λ x. is_hot x.tier) settled ≡ length s.selected
  settled_hot =
      let all : count_if (λ x. is_hot x.tier) settled ≡ count_if (in_slots s.selected) xs =
        count_if-settled_hot c now s xs (λ b. true) i.wanted in
      all ∙ count_if-perm (in_slots s.selected) p ∙ sym i.size

  settled_tenant :
      (t : String) → count_if (λ x. same_tenant t x.bot && is_hot x.tier) settled ≡ s.per_tenant t
  settled_tenant t =
      count_if-settled_hot c now s xs (same_tenant t) i.wanted
      ∙ count_if-perm (seated t s) p
      ∙ sym (i.seats t)

  full-LeftOut : (e : Entry Float) → has_room eff s ≡ false → LeftOut c eff settled e
  unfolding has_room
  full-LeftOut e full = inl (rw settled_hot (ground arith))

  served-LeftOut :
      (e : Entry Float)
      → served c s e ≡ true
      → is_hot (target s e) ≡ false
      → LeftOut c eff settled e
  served-LeftOut e h cool =
      let out : in_slots s.selected e ≡ false = rw (is_hot-target s e i.wanted) at cool in
      inr (rw (settled_tenant e.bot.tenant_id) (capped-full c s e (rw out at h)))

  All-LeftOut :
      (ys : List (Entry Float))
      → All (λ x. is_hot (target s x) ≡ false → LeftOut c eff settled x) ys
      → All (λ x. is_hot x.tier ≡ false → LeftOut c eff settled x) (settle_all c now s ys)
  unfolding settle_all
  All-LeftOut [] h = tt
  All-LeftOut (y ∷ ys) h = (rw (settle_tier, settle_bot) h.0, All-LeftOut ys h.1)

module _ {Float : Type 0} ⦃f : FloatOps Float⦄ where
  -- After a rebalance every bot that is not hot is left out for a reason: at least `effHot` bots are
  -- hot, or HotPerTenant is positive and at least so many bots of its tenant are hot. Idle bots
  -- are no exception.
  pub rebalance_locked_conserves :
      (o : Orders Float) (now mem : ℕ) (m : Manager Float)
      → IsRange o
      → IsMap m
      → All
          (λ e.
            is_hot e.tier ≡ false
            → LeftOut m.cfg (eff_hot m.cfg mem) (rebalance_locked o now mem m).0.bots e)
          (rebalance_locked o now mem m).0.bots
  unfolding rebalance_locked
  rebalance_locked_conserves o now mem m r d =
      let eff = eff_hot m.cfg mem in
      let s = slots o now mem m in
      let es = (scored o now m).entries in
      let xs = o.reconcile es in
      let i = slots-IsExact o now mem m r d in
      let p = r.reconcile es in
      let filled : Served m.cfg s (o.spare es) ⊎ (has_room eff s ≡ false) =
        unfold slots in spare_slots_serves m.cfg eff o es (hot_slots m.cfg eff (scored o now m)) in
      All-LeftOut m.cfg eff now s es i xs p xs (elim filled [
        | inr full ↦ All-of_every _ (λ x cool. full-LeftOut m.cfg eff now s es i xs p x full) xs
        | inl all ↦
            All-mono (λ x. served m.cfg s x ≡ true) _
              (λ x h cool. served-LeftOut m.cfg eff now s es i xs p x h cool) xs
              (All-of_perm (served m.cfg s) p
                (All-of_perm (served m.cfg s) (Perm.symm (r.spare es)) all))
      ])
