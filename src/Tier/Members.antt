-- ===== src/Tier/Members.antt =====
-- lib/tier/manager.go: what the loops of a rebalance range over, against the map `bots`.
use mezon_go_sdk_turbo.Prelude.{
  ◌≡◌, refl, ℕ, ◌≤◌, inl, inr, String, Bool, not, ◌&&◌, List, [], ◌∷◌, Perm, arith, All, All-append,
  All-mono, All-Among, Among, contains, count_if, count_if-split, count_if-perm, one_if, str_eq,
  str_eq_self, Bool-cases,
}
use mezon_go_sdk_turbo.Float.{FloatOps}
use mezon_go_sdk_turbo.Types.{BotRef, Tier, cold, warm, hot}
use mezon_go_sdk_turbo.Heap
use mezon_go_sdk_turbo.Tier.Config.{Config}
use mezon_go_sdk_turbo.Tier.Score.{
  Entry, Scored, score_all, score_round, score_entry, desired_tier, push_if_hot, higher,
}
use mezon_go_sdk_turbo.Tier.Slots.{insert_sorted, sort_entries, left_out}
use mezon_go_sdk_turbo.Tier.Manager.{Manager, Orders, IsRange, scored}
use mezon_go_sdk_turbo.Tier.Calls.{has_key}
use mezon_go_sdk_turbo.Tier.Keys.{Distinct, on_bot, count_if-scored}

abbrev pub same_tenant : String → BotRef → Bool
same_tenant t b = str_eq b.tenant_id t

module _ {Float : Type 0} where
  -- Some entry holds this bot.
  abbrev pub Holds : List (Entry Float) → Entry Float → Type 0
  Holds es e = (p : BotRef → Bool) → one_if (p e.bot) ≤ count_if (on_bot p) es

  -- Where keys are distinct, an entry's key is that of a bot of its own tenant only.
  pub count_if-tenant :
      (es : List (Entry Float)) (e : Entry Float) (t : String)
      → Distinct es
      → Holds es e
      → count_if (λ x. same_tenant t x.bot && has_key e.bot.key_id x) es
        ≤ one_if (same_tenant t e.bot)
  count_if-tenant es e t d h = elim (Bool-cases (same_tenant t e.bot)) [
    | inl same ↦ rw same (
        omega (
          arith,
          d e.bot.key_id,
          count_if-split (has_key e.bot.key_id) (λ x. same_tenant t x.bot) es,
        ))
    | inr other ↦ rw other (
        omega (
          arith,
          d e.bot.key_id,
          count_if-split (has_key e.bot.key_id) (λ x. same_tenant t x.bot) es,
          rw (other, str_eq_self) at
              (h (λ b. not (same_tenant t b) && str_eq b.key_id e.bot.key_id)),
        ))
  ]

module _ {Float : Type 0} ⦃f : FloatOps Float⦄ where
  pub push_if_hot-All :
      (P : Entry Float → Type 0) (t : Tier) (e : Entry Float) (cs : List (Entry Float))
      → (t ≡ hot → P e)
      → All P cs
      → All P (push_if_hot t e cs)
  unfolding push_if_hot Heap.push
  push_if_hot-All P hot e cs p h = All-append P cs (e ∷ []) h (p refl, tt)
  push_if_hot-All P warm e cs p h = h
  push_if_hot-All P cold e cs p h = h

  -- A property of the scored entries that step 1 reads holds of the candidates.
  score_all-candidates :
      (P : Entry Float → Type 0) (c : Config Float) (now : ℕ) (es : List (Entry Float))
      (s : Scored Float)
      → All (λ e. P (score_entry c now e)) es
      → All P s.candidates
      → All P (score_all c now es s).candidates
  unfolding score_all
  score_all-candidates P c now [] s h a = a
  score_all-candidates P c now (e ∷ es) s h a =
      score_all-candidates P c now es (score_round c now e s) h.1 (
        unfold score_round in
        push_if_hot-All P (desired_tier c now e) (score_entry c now e) s.candidates (λ t. h.0) a)

  insert_sorted-All :
      (P : Entry Float → Type 0) (e : Entry Float) (es : List (Entry Float))
      → P e
      → All P es
      → All P (insert_sorted e es)
  unfolding insert_sorted
  insert_sorted-All P e [] p h = (p, tt)
  insert_sorted-All P e (x ∷ xs) p h = elim (Bool-cases (higher x e)) [
    | inl above ↦ rw above (h.0, insert_sorted-All P e xs p h.1)
    | inr below ↦ rw below (p, h)
  ]

  pub sort_entries-All :
      (P : Entry Float → Type 0) (es : List (Entry Float)) → All P es → All P (sort_entries es)
  unfolding sort_entries
  sort_entries-All P [] h = tt
  sort_entries-All P (x ∷ xs) h =
      insert_sorted-All P x (sort_entries xs) h.0 (sort_entries-All P xs h.1)

  pub left_out-All :
      (P : Entry Float → Type 0) (keys : List String) (es : List (Entry Float))
      → All P es
      → All P (left_out keys es)
  unfolding left_out
  left_out-All P keys [] h = tt
  left_out-All P keys (e ∷ es) h = elim (Bool-cases (contains keys e.bot.key_id)) [
    | inl held ↦ rw held (left_out-All P keys es h.1)
    | inr missing ↦ rw missing (h.0, left_out-All P keys es h.1)
  ]

  pub score_all-entries :
      (P : Entry Float → Type 0) (c : Config Float) (now : ℕ) (es : List (Entry Float))
      (s : Scored Float)
      → All (λ e. P (score_entry c now e)) es
      → All P s.entries
      → All P (score_all c now es s).entries
  unfolding score_all
  score_all-entries P c now [] s h a = a
  score_all-entries P c now (e ∷ es) s h a =
      score_all-entries P c now es (score_round c now e s) h.1
        (unfold score_round in All-append P s.entries (score_entry c now e ∷ []) a (h.0, tt))

  score_entry-Holds :
      (o : Orders Float) (now : ℕ) (m : Manager Float)
      → IsRange o
      → All (λ e. Holds (scored o now m).entries (score_entry m.cfg now e)) (o.scoring m.bots)
  unfolding score_entry
  score_entry-Holds o now m r =
      All-mono (Among (o.scoring m.bots))
        (λ e. Holds (scored o now m).entries (score_entry m.cfg now e))
        (λ e h p. omega (
          arith,
          h (on_bot p),
          count_if-scored p o now m r,
          count_if-perm (on_bot p) (r.scoring m.bots),
        ))
        (o.scoring m.bots) (All-Among (o.scoring m.bots))

  -- Every candidate of step 1 is a bot of the scored entries.
  pub candidates-Holds :
      (o : Orders Float) (now : ℕ) (m : Manager Float)
      → IsRange o
      → All (Holds (scored o now m).entries) (scored o now m).candidates
  candidates-Holds o now m r =
      let es = (scored o now m).entries in
      let all = score_entry-Holds o now m r in
      unfold scored in score_all-candidates (Holds es) m.cfg now (o.scoring m.bots) _ all tt

  pub All-Holds : (es : List (Entry Float)) → All (Holds es) es
  All-Holds es = All-mono (Among es) (Holds es) (λ e h p. h (on_bot p)) es (All-Among es)

  -- A range over the entries visits bots of the entries.
  pub All-Holds_perm :
      {xs : List (Entry Float)} (es : List (Entry Float)) → Perm xs es → All (Holds es) xs
  All-Holds_perm {xs} es p =
      All-mono (Holds xs) (Holds es) (λ e h q. omega (arith, h q, count_if-perm (on_bot q) p)) xs
        (All-Holds xs)
