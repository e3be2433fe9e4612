-- ===== src/Tier/Slots.antt =====
-- lib/tier/manager.go: steps 3 and 3b of rebalanceLocked, which fill the hot slots.
use mezon_go_sdk_turbo.Prelude.{
  ℕ, zero, suc, String, Bool, ◌&&◌, List, [], ◌∷◌, none, some, length, contains, update,
  if◌then◌else◌,
}
use mezon_go_sdk_turbo.Prelude.Int.{ℤ, pos, ltb_ℤ, leb_ℤ}
use mezon_go_sdk_turbo.Float.{FloatOps}
use mezon_go_sdk_turbo.Types.{Tier, hot}
use mezon_go_sdk_turbo.Heap
use mezon_go_sdk_turbo.Tier.Config.{Config}
use mezon_go_sdk_turbo.Tier.Score.{Entry, higher}

-- `selected` lists the keys of the map, `per_tenant` reads 0 at a tenant that the map lacks.
pub record Slots : Type 0 where
  pub selected : List String
  pub per_tenant : String → ℕ
  pub want : String → Tier

-- The two maps as step 3 makes them.
abbrev pub no_slots : (String → Tier) → Slots
no_slots want = record { selected = []; per_tenant = λ _. 0; want = want }

-- `selected[key] = true`
unfoldable pub select : List String → String → List String
select keys k = if contains keys k then keys else k ∷ keys

-- `len(selected) < effHot`
unfoldable pub has_room : ℤ → Slots → Bool
has_room eff s = ltb_ℤ (pos (length s.selected)) eff

module _ {Float : Type 0} where
  -- `m.cfg.HotPerTenant > 0 && perTenant[tenant] >= m.cfg.HotPerTenant`
  unfoldable pub capped : Config Float → Slots → Entry Float → Bool
  capped c s e =
      ltb_ℤ (pos 0) c.hot_per_tenant && leb_ℤ c.hot_per_tenant (pos (s.per_tenant e.bot.tenant_id))

  -- `selected[…] = true; perTenant[…]++`
  unfoldable pub take_slot : Slots → Entry Float → Slots
  unfolding select
  take_slot s e = record s {
    selected = select s.selected e.bot.key_id;
    per_tenant = update s.per_tenant e.bot.tenant_id (suc (s.per_tenant e.bot.tenant_id));
  }

  -- One round of step 3, and of step 3b, which also wants the bot hot.
  unfoldable pub admit : Config Float → Slots → Entry Float → Slots
  unfolding capped take_slot
  admit c s e = if capped c s e then s else take_slot s e

  unfoldable pub admit_spare : Config Float → Slots → Entry Float → Slots
  unfolding capped take_slot
  admit_spare c s e =
      if capped c s e then s else record (take_slot s e) { want = update s.want e.bot.key_id hot }

  -- The bots that step 3 left out.
  unfoldable pub left_out : List String → List (Entry Float) → List (Entry Float)
  left_out keys [] = []
  left_out keys (e ∷ es) =
      if contains keys e.bot.key_id then left_out keys es else e ∷ left_out keys es

module _ {Float : Type 0} ⦃f : FloatOps Float⦄ where
  -- Step 3: `for candidates.Len() > 0 && len(selected) < effHot`. A round pops one entry, so as many
  -- rounds as there are candidates are enough.
  unfoldable pub fill_hot : Config Float → ℤ → ℕ → List (Entry Float) → Slots → Slots
  unfolding admit has_room
  fill_hot c eff zero h s = s
  fill_hot c eff (suc fuel) h s = elim (Heap.pop higher h) [
    | none ↦ s
    | some (e, rest) ↦ if has_room eff s then fill_hot c eff fuel rest (admit c s e) else s
  ]

  -- `sort.Slice(spare, …)`: some sorted order of the slice; here by insertion.
  unfoldable pub insert_sorted : Entry Float → List (Entry Float) → List (Entry Float)
  unfolding higher
  insert_sorted e [] = e ∷ []
  insert_sorted e (x ∷ xs) = if higher x e then x ∷ insert_sorted e xs else e ∷ x ∷ xs

  unfoldable pub sort_entries : List (Entry Float) → List (Entry Float)
  unfolding insert_sorted
  sort_entries [] = []
  sort_entries (x ∷ xs) = insert_sorted x (sort_entries xs)

  -- The loop of step 3b over the sorted spare bots.
  unfoldable pub fill_spare : Config Float → ℤ → List (Entry Float) → Slots → Slots
  unfolding admit_spare has_room
  fill_spare c eff [] s = s
  fill_spare c eff (e ∷ es) s =
      let rest = fill_spare c eff es (admit_spare c s e) in if has_room eff s then rest else s
