-- ===== src/Tier/Exact.antt =====
-- lib/tier/manager.go: what the maps `selected`, `perTenant` and `want` of rebalanceLocked stand
-- for, as an invariant of its loops.
use mezon_go_sdk_turbo.Prelude.{
  suc, ◌+◌, ◌≡◌, refl, inl, inr, String, Bool, true, false, ◌||◌, ◌&&◌, List, arith, All-of_every,
  str_eq-eq, str_eq_self, length, contains, count_if, count_if-or_disjoint, count_if-eq, one_if,
  str_eq, Bool-cases,
}
use mezon_go_sdk_turbo.Types.{hot}
use mezon_go_sdk_turbo.Tier.Score.{Entry}
use mezon_go_sdk_turbo.Tier.Slots.{Slots, take_slot}
use mezon_go_sdk_turbo.Tier.Calls.{has_key}
use mezon_go_sdk_turbo.Tier.Keys.{Distinct}
use mezon_go_sdk_turbo.Tier.Budget.{in_slots}
use mezon_go_sdk_turbo.Tier.Members.{Holds, same_tenant, count_if-tenant}
use mezon_go_sdk_turbo.Tier.Fairness.{seated, per_tenant-take_slot}

and_true : (b : Bool) → (b && true) ≡ b
and_true true = refl
and_true false = refl

module _ {Float : Type 0} where
  pub record IsExact (es : List (Entry Float)) (s : Slots) : Type 0 where
    pub seats : (t : String) → s.per_tenant t ≡ count_if (seated t s) es
    pub size : length s.selected ≡ count_if (in_slots s.selected) es
    pub wanted : (k : String) → contains s.selected k ≡ true → s.want k ≡ hot

  -- The entry has no slot yet.
  abbrev pub Fresh : Slots → Entry Float → Type 0
  Fresh s e = contains s.selected e.bot.key_id ≡ false

  Fresh-disjoint :
      (s : Slots) (e x : Entry Float)
      → Fresh s e
      → has_key e.bot.key_id x ≡ true
      → in_slots s.selected x ≡ false
  Fresh-disjoint s e x h same = rw (str_eq-eq _ _ same) h

  module _ (es : List (Entry Float)) (d : Distinct es) (s : Slots) (e : Entry Float)
      (h : Holds es e) (fresh : Fresh s e) where
    length-take_slot : length (take_slot s e).selected ≡ suc (length s.selected)
    unfolding take_slot
    length-take_slot = rw fresh (omega arith)

    key_once : count_if (has_key e.bot.key_id) es ≡ 1
    key_once =
        omega (arith, d e.bot.key_id, rw str_eq_self at (h (λ b. str_eq b.key_id e.bot.key_id)))

    take_slot-size :
        count_if (in_slots (take_slot s e).selected) es ≡ suc (count_if (in_slots s.selected) es)
    unfolding take_slot
    take_slot-size = rw fresh (
        omega (
          arith,
          key_once,
          count_if-or_disjoint (has_key e.bot.key_id) (in_slots s.selected) es
              (All-of_every _ (λ x same. Fresh-disjoint s e x fresh same) es),
        ))

    tenant_once :
        (t : String)
        → count_if (λ x. same_tenant t x.bot && has_key e.bot.key_id x) es
          ≡ one_if (same_tenant t e.bot)
    tenant_once t = omega (
      arith,
      count_if-tenant es e t d h,
      rw (str_eq_self, and_true) at (h (λ b. same_tenant t b && str_eq b.key_id e.bot.key_id)),
    )

    take_slot-seats :
        (t : String)
        → count_if (seated t (take_slot s e)) es
          ≡ one_if (same_tenant t e.bot) + count_if (seated t s) es
    unfolding take_slot
    take_slot-seats t = rw fresh (
        omega (
          arith,
          tenant_once t,
          count_if-eq
              (λ x. same_tenant t x.bot && (has_key e.bot.key_id x || in_slots s.selected x))
              (λ x. (same_tenant t x.bot && has_key e.bot.key_id x) || seated t s x) es
              (All-of_every _ (λ x. ground arith) es),
          count_if-or_disjoint (λ x. same_tenant t x.bot && has_key e.bot.key_id x) (seated t s) es
              (All-of_every _ (λ x same. ground (arith, Fresh-disjoint s e x fresh)) es),
        ))

    take_slot-wanted :
        ((k : String) → contains s.selected k ≡ true → s.want k ≡ hot)
        → s.want e.bot.key_id ≡ hot
        → (k : String) → contains (take_slot s e).selected k ≡ true
        → (take_slot s e).want k ≡ hot
    unfolding take_slot
    take_slot-wanted w want k held = elim (Bool-cases (str_eq k e.bot.key_id)) [
      | inl same ↦ rw (str_eq-eq _ _ same) want
      | inr other ↦ w k (rw (fresh, other) at held)
    ]

    pub take_slot-IsExact : s.want e.bot.key_id ≡ hot → IsExact es s → IsExact es (take_slot s e)
    take_slot-IsExact want i = record {
      seats = λ t. omega (arith, per_tenant-take_slot s e t, take_slot-seats t, i.seats t);
      size = omega (arith, take_slot-size, length-take_slot, i.size);
      wanted = take_slot-wanted i.wanted want;
    }
