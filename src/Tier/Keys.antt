-- ===== src/Tier/Keys.antt =====
-- lib/tier/manager.go: the keys of the map `bots`, which the entries are counted by.
use mezon_go_sdk_turbo.Prelude.{
  ℕ, ◌+◌, ◌≤◌, ◌≡◌, refl, ◌∙◌, inl, inr, String, Bool, List, [], ◌∷◌, none, arith, All, count_if,
  count_if-append, count_if-perm, one_if, str_eq, str_eq-eq, ap, Bool-cases, Option-cases,
}
use mezon_go_sdk_turbo.Float.{FloatOps}
use mezon_go_sdk_turbo.Types.{BotRef}
use mezon_go_sdk_turbo.Tier.Config.{Config}
use mezon_go_sdk_turbo.Tier.Score.{Entry, Scored, score_entry, score_round, score_all}
use mezon_go_sdk_turbo.Tier.Slots.{Slots}
use mezon_go_sdk_turbo.Tier.Manager.{
  Manager, Orders, IsRange, rebalance_locked, settle_all, scored, slots,
}
use mezon_go_sdk_turbo.Tier.Calls.{
  has_key, find, modify, delete, add, remove, touch, force_tier, bump, new_entry, rebalance, step,
  run, Call, adds, removes, touches, rebalances, forces,
}

module _ {Float : Type 0} where
  -- No key stands twice among the entries.
  abbrev pub Distinct : List (Entry Float) → Type 0
  Distinct es = (k : String) → count_if (has_key k) es ≤ 1

  -- A test that looks at the bot of an entry only.
  abbrev pub on_bot : (BotRef → Bool) → Entry Float → Bool
  on_bot p e = p e.bot

  pub count_if-settle_all :
      (p : BotRef → Bool) (c : Config Float) (now : ℕ) (s : Slots) (es : List (Entry Float))
      → count_if (on_bot p) (settle_all c now s es) ≡ count_if (on_bot p) es
  unfolding settle_all
  count_if-settle_all p c now s [] = refl
  count_if-settle_all p c now s (e ∷ es) = ground (arith, count_if-settle_all p c now s es)

module _ {Float : Type 0} ⦃f : FloatOps Float⦄ where
  pub count_if-score_all :
      (p : BotRef → Bool) (c : Config Float) (now : ℕ) (es : List (Entry Float)) (s : Scored Float)
      → count_if (on_bot p) (score_all c now es s).entries
        ≡ count_if (on_bot p) s.entries + count_if (on_bot p) es
  unfolding score_all score_entry
  count_if-score_all p c now [] s = omega arith
  count_if-score_all p c now (e ∷ es) s = omega (
    arith,
    count_if-score_all p c now es (score_round c now e s),
    count_if-append (on_bot p) s.entries (score_entry c now e ∷ []),
  )

  -- Step 1 of a rebalance has the bots of the map, each as often.
  pub count_if-scored :
      (p : BotRef → Bool) (o : Orders Float) (now : ℕ) (m : Manager Float)
      → IsRange o
      → count_if (on_bot p) (scored o now m).entries ≡ count_if (on_bot p) m.bots
  unfolding scored
  count_if-scored p o now m r = omega (
    arith,
    count_if-score_all p m.cfg now (o.scoring m.bots) _,
    count_if-perm (on_bot p) (r.scoring m.bots),
  )

  pub scored-Distinct :
      (o : Orders Float) (now : ℕ) (m : Manager Float)
      → IsRange o
      → Distinct m.bots
      → Distinct (scored o now m).entries
  scored-Distinct o now m r d k =
      omega (arith, count_if-scored (λ b. str_eq b.key_id k) o now m r, d k)

  -- A rebalance neither loses nor adds a bot.
  pub count_if-rebalance_locked :
      (p : BotRef → Bool) (o : Orders Float) (now mem : ℕ) (m : Manager Float)
      → IsRange o
      → count_if (on_bot p) (rebalance_locked o now mem m).0.bots ≡ count_if (on_bot p) m.bots
  unfolding rebalance_locked
  count_if-rebalance_locked p o now mem m r =
      let es = (scored o now m).entries in
      count_if-settle_all p m.cfg now (slots o now mem m) (o.reconcile es)
      ∙ count_if-perm (on_bot p) (r.reconcile es)
      ∙ count_if-scored p o now m r

module _ {Float : Type 0} where
  -- A write that keeps the bot keeps the counts.
  pub count_if-modify :
      (p : BotRef → Bool) (k : String) (g : Entry Float → Entry Float) (es : List (Entry Float))
      → ((e : Entry Float) → (g e).bot ≡ e.bot)
      → count_if (on_bot p) (modify k g es) ≡ count_if (on_bot p) es
  unfolding modify
  count_if-modify p k g [] keeps = refl
  count_if-modify p k g (e ∷ es) keeps = elim (Bool-cases (has_key k e)) [
    | inl hit ↦ rw (hit, keeps e)
    | inr miss ↦ rw miss (omega (arith, count_if-modify p k g es keeps))
  ]

  count_if-delete :
      (p : Entry Float → Bool) (k : String) (es : List (Entry Float))
      → count_if p (delete k es) ≤ count_if p es
  unfolding delete
  count_if-delete p k [] = omega arith
  count_if-delete p k (e ∷ es) = ground (arith, count_if-delete p k es)

  pub find-none :
      (k : String) (es : List (Entry Float)) → find k es ≡ none → count_if (has_key k) es ≡ 0
  unfolding find
  find-none k [] h = refl
  find-none k (e ∷ es) h = ground (arith, find-none k es)

  -- `delete` takes the one entry of its key.
  pub count_if-delete_key :
      (k : String) (es : List (Entry Float)) → Distinct es → count_if (has_key k) (delete k es) ≡ 0
  unfolding delete
  count_if-delete_key k [] d = refl
  count_if-delete_key k (e ∷ es) d =
      ground (arith, d k, count_if-delete_key k es (λ j. omega (arith, d j)))

-- A manager whose map holds each key once, as `New` makes it and every call keeps it.
abbrev pub IsMap : {Float : Type 0} → Manager Float → Type 0
IsMap m = Distinct m.bots

-- The orders that a call ranges by are orders of a range.
abbrev pub CallIsRange : {Float : Type 0} → Call Float → Type 0
CallIsRange (adds now bot) = Unit {0}
CallIsRange (removes k) = Unit {0}
CallIsRange (touches o now mem k) = IsRange o
CallIsRange (rebalances o now mem) = IsRange o
CallIsRange (forces k t) = Unit {0}

module _ {Float : Type 0} ⦃f : FloatOps Float⦄ where
  pub rebalance_locked-IsMap :
      (o : Orders Float) (now mem : ℕ) (m : Manager Float)
      → IsRange o
      → IsMap m
      → IsMap (rebalance_locked o now mem m).0
  rebalance_locked-IsMap o now mem m r d k =
      omega (arith, count_if-rebalance_locked (λ b. str_eq b.key_id k) o now mem m r, d k)

  add-IsMap : (now : ℕ) (bot : BotRef) (m : Manager Float) → IsMap m → IsMap (add now bot m)
  unfolding add
  add-IsMap now bot m d k = elim (Option-cases (find bot.key_id m.bots)) [
    | inr (e, held) ↦ rw (held, add) (d k)
    | inl missing ↦
        rw (missing, add)
          (elim (Bool-cases (str_eq bot.key_id k)) [
            | inl same ↦ omega (
              arith,
              count_if-append (has_key k) m.bots (new_entry now bot ∷ []),
              find-none k m.bots (rw (str_eq-eq _ _ same) at missing),
              ap one_if same,
            )
            | inr other ↦ omega (
              arith,
              count_if-append (has_key k) m.bots (new_entry now bot ∷ []),
              d k,
              ap one_if other,
            )
          ])
  ]

  pub step-IsMap :
      (m : Manager Float) (c : Call Float) → CallIsRange c → IsMap m → IsMap (step m c).0
  unfolding step touch rebalance remove force_tier bump
  step-IsMap m (adds now bot) r d = add-IsMap now bot m d
  step-IsMap m (removes k) r d = λ j. omega (arith, count_if-delete (has_key j) k m.bots, d j)
  step-IsMap m (touches o now mem k) r d = rebalance_locked-IsMap o now mem _ r λ j.
      omega (arith, count_if-modify (λ b. str_eq b.key_id j) k (bump now) m.bots (λ e. refl), d j)
  step-IsMap m (rebalances o now mem) r d = rebalance_locked-IsMap o now mem m r d
  step-IsMap m (forces k t) r d = λ j. omega (
    arith,
    count_if-modify (λ b. str_eq b.key_id j) k (λ e. record e { tier = t }) m.bots (λ e. refl),
    d j,
  )

  -- Whatever the calls, the map holds each key once.
  pub run-IsMap :
      (m : Manager Float) (cs : List (Call Float)) → IsMap m → All CallIsRange cs → IsMap (run m cs)
  unfolding run
  run-IsMap m [] d r = d
  run-IsMap m (c ∷ cs) d r = run-IsMap (step m c).0 cs (step-IsMap m c r.0 d) r.1
