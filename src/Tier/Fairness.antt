-- ===== src/Tier/Fairness.antt =====
-- lib/tier/manager.go: `perTenant` against HotPerTenant in steps 3 and 3b of rebalanceLocked.
use mezon_go_sdk_turbo.Prelude.{
  ℕ, zero, suc, ◌+◌, ◌≤◌, ◌<◌, ◌≡◌, ap, inl, inr, String, Bool, false, ◌||◌, ◌&&◌, List, [], ◌∷◌,
  arith, All, All-of_every, str_eq-eq, length, count_if, count_if-or, count_if-zero, count_if_mono,
  count_if-perm, one_if, Bool-cases, Option-cases,
}
use mezon_go_sdk_turbo.Prelude.Int.{ℤ, pos_part}
use mezon_go_sdk_turbo.Float.{FloatOps}
use mezon_go_sdk_turbo.Types.{Tier, is_hot}
use mezon_go_sdk_turbo.Heap
use mezon_go_sdk_turbo.Heap.Content.{All-pop, All-init}
use mezon_go_sdk_turbo.Tier.Config.{Config, eff_hot}
use mezon_go_sdk_turbo.Tier.Score.{Entry, higher}
use mezon_go_sdk_turbo.Tier.Slots.{
  Slots, no_slots, take_slot, capped, admit, admit_spare, has_room, fill_hot, fill_spare, left_out,
  sort_entries,
}
use mezon_go_sdk_turbo.Tier.Manager.{
  Manager, Orders, IsRange, rebalance_locked, hot_slots, spare_slots, scored, slots,
}
use mezon_go_sdk_turbo.Tier.Calls.{has_key}
use mezon_go_sdk_turbo.Tier.Keys.{Distinct, IsMap, scored-Distinct}
use mezon_go_sdk_turbo.Tier.Budget.{in_slots, settle-in_slots}
use mezon_go_sdk_turbo.Tier.Members.{
  Holds, same_tenant, count_if-tenant, candidates-Holds, All-Holds_perm, sort_entries-All,
  left_out-All,
}

module _ {Float : Type 0} where
  -- The entries of a tenant that have a slot.
  abbrev pub seated : String → Slots → Entry Float → Bool
  seated t s e = same_tenant t e.bot && in_slots s.selected e

  -- `per_tenant` counts every bot that has a slot, and respects the cap of the configuration.
  pub record IsFair (c : Config Float) (es : List (Entry Float)) (s : Slots) : Type 0 where
    pub counted : (t : String) → count_if (seated t s) es ≤ s.per_tenant t
    pub below_cap :
        (t : String) → 0 < pos_part c.hot_per_tenant → s.per_tenant t ≤ pos_part c.hot_per_tenant

  take_slot-seated :
      (es : List (Entry Float)) (s : Slots) (e : Entry Float) (t : String)
      → Distinct es
      → Holds es e
      → count_if (seated t (take_slot s e)) es
        ≤ one_if (same_tenant t e.bot) + count_if (seated t s) es
  unfolding take_slot
  take_slot-seated es s e t d h = omega (
    arith,
    count_if-tenant es e t d h,
    count_if-or (λ x. same_tenant t x.bot && has_key e.bot.key_id x) (seated t s) es,
    count_if_mono (seated t (take_slot s e))
        (λ x. (same_tenant t x.bot && has_key e.bot.key_id x) || seated t s x) es
        (All-of_every _ (λ x. ground arith) es),
  )

  pub per_tenant-take_slot :
      (s : Slots) (e : Entry Float) (t : String)
      → (take_slot s e).per_tenant t ≡ one_if (same_tenant t e.bot) + s.per_tenant t
  unfolding take_slot
  per_tenant-take_slot s e t = elim (Bool-cases (same_tenant t e.bot)) [
    | inl same ↦ rw (same, str_eq-eq _ _ same) (omega arith)
    | inr other ↦ rw other (omega arith)
  ]

  -- The guard of both loops leaves room below the cap.
  below_cap-free :
      (c : Config Float) (s : Slots) (e : Entry Float)
      → capped c s e ≡ false
      → 0 < pos_part c.hot_per_tenant
      → s.per_tenant e.bot.tenant_id < pos_part c.hot_per_tenant
  unfolding capped
  below_cap-free c s e free h = ground arith

  take_slot-IsFair :
      (c : Config Float) (es : List (Entry Float)) (s : Slots) (e : Entry Float)
      → Distinct es
      → Holds es e
      → capped c s e ≡ false
      → IsFair c es s
      → IsFair c es (take_slot s e)
  take_slot-IsFair c es s e d h free i = record {
    counted =
        λ t. omega (arith, take_slot-seated es s e t d h, per_tenant-take_slot s e t, i.counted t);
    below_cap = λ t p. elim (Bool-cases (same_tenant t e.bot)) [
      | inl same ↦ omega (
        arith,
        per_tenant-take_slot s e t,
        ap one_if same,
        below_cap-free c s e free p,
        ap s.per_tenant (str_eq-eq _ _ same),
      )
      | inr other ↦ omega (arith, per_tenant-take_slot s e t, ap one_if other, i.below_cap t p)
    ];
  }

module _ {Float : Type 0} ⦃f : FloatOps Float⦄ (c : Config Float) (es : List (Entry Float))
    (d : Distinct es) where
  admit-IsFair :
      (s : Slots) (e : Entry Float) → Holds es e → IsFair c es s → IsFair c es (admit c s e)
  unfolding admit
  admit-IsFair s e h i = elim (Bool-cases (capped c s e)) [
    | inl full ↦ rw full i
    | inr free ↦ rw free (take_slot-IsFair c es s e d h free i)
  ]

  admit_spare-IsFair :
      (s : Slots) (e : Entry Float) → Holds es e → IsFair c es s → IsFair c es (admit_spare c s e)
  unfolding admit_spare
  admit_spare-IsFair s e h i = elim (Bool-cases (capped c s e)) [
    | inl full ↦ rw full i
    | inr free ↦ rw free (
        let j = take_slot-IsFair c es s e d h free i in
        record { counted = j.counted; below_cap = j.below_cap })
  ]

  fill_hot-IsFair :
      (eff : ℤ) (fuel : ℕ) (h : List (Entry Float)) (s : Slots)
      → All (Holds es) h
      → IsFair c es s
      → IsFair c es (fill_hot c eff fuel h s)
  unfolding fill_hot
  fill_hot-IsFair eff zero h s a i = i
  fill_hot-IsFair eff (suc fuel) h s a i = elim (Option-cases (Heap.pop higher h)) [
    | inl q ↦ rw (q, fill_hot) i
    | inr ((e, rest), q) ↦
        let (he, hr) = All-pop higher (Holds es) h q a in
        elim (Bool-cases (has_room eff s)) [
          | inl room ↦
              rw (q, room, fill_hot)
                (fill_hot-IsFair eff fuel rest (admit c s e) hr (admit-IsFair s e he i))
          | inr full ↦ rw (q, full, fill_hot) i
        ]
  ]

  fill_spare-IsFair :
      (eff : ℤ) (xs : List (Entry Float)) (s : Slots)
      → All (Holds es) xs
      → IsFair c es s
      → IsFair c es (fill_spare c eff xs s)
  unfolding fill_spare
  fill_spare-IsFair eff [] s a i = i
  fill_spare-IsFair eff (x ∷ xs) s a i = elim (Bool-cases (has_room eff s)) [
    | inl room ↦
        rw room (fill_spare-IsFair eff xs (admit_spare c s x) a.1 (admit_spare-IsFair s x a.0 i))
    | inr full ↦ rw full i
  ]

  no_slots-IsFair : (want : String → Tier) → IsFair c es (no_slots want)
  no_slots-IsFair want = record {
    counted = λ t. omega (
      arith,
      count_if-zero (seated t (no_slots want)) es
          (All-of_every (λ e. seated t (no_slots want) e ≡ false) (λ e. ground arith) es),
    );
    below_cap = λ t p. omega arith;
  }

module _ {Float : Type 0} ⦃f : FloatOps Float⦄ where
  pub slots-IsFair :
      (o : Orders Float) (now mem : ℕ) (m : Manager Float)
      → IsRange o
      → IsMap m
      → IsFair m.cfg (scored o now m).entries (slots o now mem m)
  unfolding slots spare_slots hot_slots
  slots-IsFair o now mem m r d =
      let eff = eff_hot m.cfg mem in
      let s = scored o now m in
      let es = s.entries in
      let d' = scored-Distinct o now m r d in
      let h = hot_slots m.cfg eff s in
      let i : IsFair m.cfg es h =
        fill_hot-IsFair m.cfg es d' eff (length s.candidates) (Heap.init higher s.candidates) _
          (All-init higher (Holds es) s.candidates (candidates-Holds o now m r))
          (no_slots-IsFair m.cfg es d' s.want) in
      let spare = left_out h.selected (o.spare es) in
      elim (Bool-cases (has_room eff h)) [
        | inl room ↦ rw room (
            fill_spare-IsFair m.cfg es d' eff (sort_entries spare) h
              (sort_entries-All (Holds es) spare
                (left_out-All (Holds es) h.selected (o.spare es) (All-Holds_perm es (r.spare es))))
              i)
        | inr full ↦ rw full i
      ]

  -- After a rebalance at most HotPerTenant bots of any one tenant are hot, where that cap is
  -- positive (0 means no cap).
  pub hot_per_tenant-rebalance_locked :
      (o : Orders Float) (now mem : ℕ) (m : Manager Float) (t : String)
      → IsRange o
      → IsMap m
      → 0 < pos_part m.cfg.hot_per_tenant
      → count_if (λ e. same_tenant t e.bot && is_hot e.tier) (rebalance_locked o now mem m).0.bots
        ≤ pos_part m.cfg.hot_per_tenant
  unfolding rebalance_locked
  hot_per_tenant-rebalance_locked o now mem m t r d p =
      let s = slots o now mem m in
      let es = (scored o now m).entries in
      let i = slots-IsFair o now mem m r d in
      omega (
        arith,
        settle-in_slots m.cfg now s (o.reconcile es) (same_tenant t),
        count_if-perm (seated t s) (r.reconcile es),
        i.counted t,
        i.below_cap t p,
      )
