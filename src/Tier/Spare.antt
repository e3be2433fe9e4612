-- ===== src/Tier/Spare.antt =====
-- lib/tier/manager.go: the bots that step 3b of rebalanceLocked leaves without a slot.
use mezon_go_sdk_turbo.Prelude.{
  ◌≡◌, refl, sym, subst, ◌⊎◌, inl, inr, String, Bool, true, false, ◌||◌, List, [], ◌∷◌, arith, All,
  str_eq_self, eq_iff, contains, Bool-cases, if◌then◌else◌,
}
use mezon_go_sdk_turbo.Prelude.Int.{ℤ}
use mezon_go_sdk_turbo.Float.{FloatOps}
use mezon_go_sdk_turbo.Tier.Config.{Config}
use mezon_go_sdk_turbo.Tier.Score.{Entry, higher}
use mezon_go_sdk_turbo.Tier.Slots.{
  Slots, take_slot, capped, admit_spare, has_room, fill_spare, left_out, sort_entries,
  insert_sorted,
}
use mezon_go_sdk_turbo.Tier.Manager.{Orders, spare_slots}
use mezon_go_sdk_turbo.Tier.Budget.{in_slots}

module _ {Float : Type 0} (c : Config Float) where
  -- The bot has a slot, or its tenant has no more.
  abbrev pub served : Slots → Entry Float → Bool
  served s e = contains s.selected e.bot.key_id || capped c s e

  abbrev pub Served : Slots → List (Entry Float) → Type 0
  Served s xs = All (λ x. served s x ≡ true) xs

  -- A slot for one bot takes nothing from another.
  take_slot-served :
      (s : Slots) (e x : Entry Float) → served s x ≡ true → served (take_slot s e) x ≡ true
  unfolding take_slot capped
  take_slot-served s e x h = ground (arith, eq_iff e.bot.tenant_id x.bot.tenant_id)

  take_slot-served_self : (s : Slots) (e : Entry Float) → served (take_slot s e) e ≡ true
  unfolding take_slot
  take_slot-served_self s e = ground (arith, str_eq_self e.bot.key_id)

module _ {Float : Type 0} ⦃f : FloatOps Float⦄ (c : Config Float) (eff : ℤ) where
  admit_spare-served :
      (s : Slots) (e x : Entry Float) → served c s x ≡ true → served c (admit_spare c s e) x ≡ true
  unfolding admit_spare
  admit_spare-served s e x h = elim (Bool-cases (capped c s e)) [
    | inl full ↦ rw full h
    | inr free ↦ rw free (unfold capped in take_slot-served c s e x h)
  ]

  admit_spare-served_self : (s : Slots) (e : Entry Float) → served c (admit_spare c s e) e ≡ true
  unfolding admit_spare
  admit_spare-served_self s e = elim (Bool-cases (capped c s e)) [
    | inl full ↦ rw full (ground arith)
    | inr free ↦ rw free (unfold capped in take_slot-served_self c s e)
  ]

  fill_spare-served :
      (xs : List (Entry Float)) (s : Slots) (x : Entry Float)
      → served c s x ≡ true
      → served c (fill_spare c eff xs s) x ≡ true
  unfolding fill_spare
  fill_spare-served [] s x h = h
  fill_spare-served (y ∷ ys) s x h = elim (Bool-cases (has_room eff s)) [
    | inl room ↦ rw room (fill_spare-served ys (admit_spare c s y) x (admit_spare-served s y x h))
    | inr full ↦ rw full h
  ]

  fill_spare-room :
      (y : Entry Float) (ys : List (Entry Float)) (s : Slots)
      → has_room eff s ≡ true
      → fill_spare c eff (y ∷ ys) s ≡ fill_spare c eff ys (admit_spare c s y)
  unfolding fill_spare
  fill_spare-room y ys s room = rw room

  fill_spare-full :
      (xs : List (Entry Float)) (s : Slots) → has_room eff s ≡ false → fill_spare c eff xs s ≡ s
  unfolding fill_spare
  fill_spare-full [] s full = refl
  fill_spare-full (y ∷ ys) s full = rw full

  -- Step 3b serves all the spare bots, or stops because the budget is used up.
  fill_spare_serves :
      (xs : List (Entry Float)) (s : Slots)
      → Served c (fill_spare c eff xs s) xs ⊎ (has_room eff (fill_spare c eff xs s) ≡ false)
  fill_spare_serves [] s = inl tt
  fill_spare_serves (y ∷ ys) s = elim (Bool-cases (has_room eff s)) [
    | inr full ↦ rw (fill_spare-full (y ∷ ys) s full) (inr full)
    | inl room ↦
        let s' = admit_spare c s y in
        subst (λ t. Served c t (y ∷ ys) ⊎ (has_room eff t ≡ false))
          (sym (fill_spare-room y ys s room))
          (elim (fill_spare_serves ys s') [
            | inl all ↦ inl (fill_spare-served ys s' y (admit_spare-served_self s y), all)
            | inr full ↦ inr full
          ])
  ]

  All-insert_sorted :
      (P : Entry Float → Type 0) (e : Entry Float) (es : List (Entry Float))
      → All P (insert_sorted e es)
      → P e × All P es
  unfolding insert_sorted
  All-insert_sorted P e [] h = h
  All-insert_sorted P e (x ∷ xs) h = elim (Bool-cases (higher x e)) [
    | inl above ↦
        let (p, rest) = rw above at h in
        let (q, others) = All-insert_sorted P e xs rest in (q, (p, others))
    | inr below ↦ rw below at h
  ]

  All-sort_entries :
      (P : Entry Float → Type 0) (es : List (Entry Float)) → All P (sort_entries es) → All P es
  unfolding sort_entries
  All-sort_entries P [] h = tt
  All-sort_entries P (x ∷ xs) h =
      let (p, rest) = All-insert_sorted P x (sort_entries xs) h in (p, All-sort_entries P xs rest)

  All-left_out :
      (P : Entry Float → Type 0) (keys : List String) (es : List (Entry Float))
      → ((e : Entry Float) → in_slots keys e ≡ true → P e)
      → All P (left_out keys es)
      → All P es
  unfolding left_out
  All-left_out P keys [] held h = tt
  All-left_out P keys (e ∷ es) held h = elim (Bool-cases (contains keys e.bot.key_id)) [
    | inl kept ↦ (held e kept, All-left_out P keys es held (rw kept at h))
    | inr out ↦ let (p, rest) = rw out at h in (p, All-left_out P keys es held rest)
  ]

  -- Step 3b, from slots that step 3 left, serves every bot or uses the budget up.
  pub spare_slots_serves :
      (o : Orders Float) (es : List (Entry Float)) (s : Slots)
      → Served c (spare_slots o c eff es s) (o.spare es)
        ⊎ (has_room eff (spare_slots o c eff es s) ≡ false)
  unfolding spare_slots
  spare_slots_serves o es s = elim (Bool-cases (has_room eff s)) [
    | inr full ↦ inr (rw full full)
    | inl room ↦
        let spare = left_out s.selected (o.spare es) in
        let s' = fill_spare c eff (sort_entries spare) s in
        let same : (if has_room eff s then s' else s) ≡ s' = rw room in
        subst (λ t. Served c t (o.spare es) ⊎ (has_room eff t ≡ false)) (sym same)
          (elim (fill_spare_serves (sort_entries spare) s) [
            | inr full ↦ inr full
            | inl all ↦ inl (
                All-left_out (λ x. served c s' x ≡ true) s.selected (o.spare es)
                  (λ e held. fill_spare-served (sort_entries spare) s e (rw held))
                  (All-sort_entries (λ x. served c s' x ≡ true) spare all))
          ])
  ]
