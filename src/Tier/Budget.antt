-- ===== src/Tier/Budget.antt =====
-- lib/tier/manager.go: `len(selected)` against the hot budget of rebalanceLocked.
use mezon_go_sdk_turbo.Prelude.{
  ℕ, zero, suc, ◌+◌, ◌≤◌, ◌≡◌, refl, inl, inr, String, Bool, true, ◌&&◌, List, [], ◌∷◌, arith,
  length, contains, count_if, count_if-or, count_if-zero, All-of_every, count_if-perm, Bool-cases,
  Option-cases,
}
use mezon_go_sdk_turbo.Prelude.Int.{ℤ, pos_part}
use mezon_go_sdk_turbo.Float.{FloatOps}
use mezon_go_sdk_turbo.Types.{BotRef, is_hot}
use mezon_go_sdk_turbo.Heap
use mezon_go_sdk_turbo.Tier.Config.{Config, eff_hot}
use mezon_go_sdk_turbo.Tier.Score.{Entry, Scored, higher}
use mezon_go_sdk_turbo.Tier.Slots.{
  Slots, admit, admit_spare, has_room, fill_hot, fill_spare, left_out, sort_entries,
}
use mezon_go_sdk_turbo.Tier.Manager.{
  Manager, Orders, IsRange, rebalance_locked, settle_all, hot_slots, spare_slots, scored, slots,
}
use mezon_go_sdk_turbo.Tier.Calls.{has_key, hot_count}
use mezon_go_sdk_turbo.Tier.Keys.{Distinct, IsMap, scored-Distinct}

module _ {Float : Type 0} where
  abbrev pub in_slots : List String → Entry Float → Bool
  in_slots keys e = contains keys e.bot.key_id

  -- Where keys are distinct, a list of keys names at most as many entries.
  pub count_if-in_slots :
      (keys : List String) (es : List (Entry Float))
      → Distinct es
      → count_if (in_slots keys) es ≤ length keys
  count_if-in_slots [] es d =
      omega (arith, count_if-zero (in_slots []) es (All-of_every _ (λ e. refl) es))
  count_if-in_slots (k ∷ keys) es d =
      let either : count_if (in_slots (k ∷ keys)) es
          ≤ count_if (has_key k) es + count_if (in_slots keys) es =
        count_if-or (has_key k) (in_slots keys) es in
      omega (arith, d k, either, count_if-in_slots keys es d)

  -- A bot that a rebalance leaves hot has a slot.
  pub settle-in_slots :
      (c : Config Float) (now : ℕ) (s : Slots) (es : List (Entry Float)) (q : BotRef → Bool)
      → count_if (λ e. q e.bot && is_hot e.tier) (settle_all c now s es)
        ≤ count_if (λ e. q e.bot && in_slots s.selected e) es
  unfolding settle_all
  settle-in_slots c now s [] q = omega arith
  settle-in_slots c now s (e ∷ es) q = ground (arith, settle-in_slots c now s es q)

-- The budget, where a negative one counts as none.
abbrev pub Within : ℤ → Slots → Type 0
Within eff s = length s.selected ≤ pos_part eff

module _ {Float : Type 0} ⦃f : FloatOps Float⦄ where
  admit-Within :
      (c : Config Float) (eff : ℤ) (s : Slots) (e : Entry Float)
      → has_room eff s ≡ true
      → Within eff (admit c s e)
  unfolding admit has_room
  admit-Within c eff s e h = ground arith

  admit_spare-Within :
      (c : Config Float) (eff : ℤ) (s : Slots) (e : Entry Float)
      → has_room eff s ≡ true
      → Within eff (admit_spare c s e)
  unfolding admit_spare has_room
  admit_spare-Within c eff s e h = ground arith

  fill_hot-Within :
      (c : Config Float) (eff : ℤ) (fuel : ℕ) (h : List (Entry Float)) (s : Slots)
      → Within eff s
      → Within eff (fill_hot c eff fuel h s)
  unfolding fill_hot
  fill_hot-Within c eff zero h s w = w
  fill_hot-Within c eff (suc fuel) h s w = elim (Option-cases (Heap.pop higher h)) [
    | inl e ↦ rw (e, fill_hot) w
    | inr ((e, rest), q) ↦ elim (Bool-cases (has_room eff s)) [
      | inl room ↦
          rw (q, room, fill_hot)
            (fill_hot-Within c eff fuel rest (admit c s e) (admit-Within c eff s e room))
      | inr full ↦ rw (q, full, fill_hot) w
    ]
  ]

  fill_spare-Within :
      (c : Config Float) (eff : ℤ) (es : List (Entry Float)) (s : Slots)
      → Within eff s
      → Within eff (fill_spare c eff es s)
  unfolding fill_spare
  fill_spare-Within c eff [] s w = w
  fill_spare-Within c eff (e ∷ es) s w = elim (Bool-cases (has_room eff s)) [
    | inl room ↦
        rw room (fill_spare-Within c eff es (admit_spare c s e) (admit_spare-Within c eff s e room))
    | inr full ↦ rw full w
  ]

  hot_slots-Within :
      (c : Config Float) (eff : ℤ) (s : Scored Float) → Within eff (hot_slots c eff s)
  unfolding hot_slots
  hot_slots-Within c eff s =
      fill_hot-Within c eff (length s.candidates) (Heap.init higher s.candidates) _ (omega arith)

  pub slots-Within :
      (o : Orders Float) (now mem : ℕ) (m : Manager Float)
      → Within (eff_hot m.cfg mem) (slots o now mem m)
  unfolding slots spare_slots
  slots-Within o now mem m =
      let eff = eff_hot m.cfg mem in
      let s = scored o now m in
      let h = hot_slots m.cfg eff s in
      let w = hot_slots-Within m.cfg eff s in
      elim (Bool-cases (has_room eff h)) [
        | inl room ↦ rw room (
            fill_spare-Within m.cfg eff (sort_entries (left_out h.selected (o.spare s.entries))) h
              w)
        | inr full ↦ rw full w
      ]

  -- After a rebalance at most `effHot` bots are hot: PressureHotCap where the heap has reached
  -- MemHighMB and that is not 0, and MaxHot otherwise (none where that is negative).
  pub hot_count-rebalance_locked :
      (o : Orders Float) (now mem : ℕ) (m : Manager Float)
      → IsRange o
      → IsMap m
      → hot_count (rebalance_locked o now mem m).0 ≤ pos_part (eff_hot m.cfg mem)
  unfolding hot_count rebalance_locked
  hot_count-rebalance_locked o now mem m r d =
      let s = slots o now mem m in
      let es = (scored o now m).entries in
      let bound : count_if (λ e. is_hot e.tier) (settle_all m.cfg now s (o.reconcile es))
          ≤ count_if (in_slots s.selected) (o.reconcile es) =
        settle-in_slots m.cfg now s (o.reconcile es) (λ b. true) in
      omega (
        arith,
        bound,
        count_if-perm (in_slots s.selected) (r.reconcile es),
        count_if-in_slots s.selected es (scored-Distinct o now m r d),
        slots-Within o now mem m,
      )
