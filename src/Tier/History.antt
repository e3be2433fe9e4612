-- ===== src/Tier/History.antt =====
-- lib/tier/manager.go: a history of calls on a manager whose Actuator keeps the sockets.
use mezon_go_sdk_turbo.Prelude.{
  ℕ, ◌≡◌, refl, sym, ◌∙◌, inl, inr, String, true, false, List, [], ◌∷◌, some, arith, All, All-mono,
  All-and, All-append, All-of_zero, str_eq-eq, str_eq_symm, eq_iff, bool_eq-eq, count_if,
  count_if-append, str_eq, Bool-cases, Option-cases, if◌then◌else◌,
}
use mezon_go_sdk_turbo.Float.{FloatOps}
use mezon_go_sdk_turbo.Types.{BotRef, is_hot}
use mezon_go_sdk_turbo.Tier.Config.{Config}
use mezon_go_sdk_turbo.Tier.Score.{Entry}
use mezon_go_sdk_turbo.Tier.Manager.{Manager, Orders, IsRange, new}
use mezon_go_sdk_turbo.Tier.Calls.{
  has_key, find, modify, delete, add, new_entry, remove, touch, bump, rebalance, step, Call, adds,
  removes, touches, rebalances, forces,
}
use mezon_go_sdk_turbo.Tier.Keys.{
  IsMap, CallIsRange, count_if-delete_key, count_if-modify, find-none, step-IsMap,
}
use mezon_go_sdk_turbo.Tier.Actuator.{apply, Sockets, sockets, close_socket}
use mezon_go_sdk_turbo.Tier.Agreement.{
  matches, Agrees, rebalance_locked-Agrees, rebalance_locked_faulted,
}

-- The manager and the sockets after a history: each call's actions are applied after it.
unfoldable pub drive :
    {Float : Type 0} ⦃f : FloatOps Float⦄
    → Manager Float × Sockets
    → List (Call Float)
    → Manager Float × Sockets
unfolding step apply
drive (m, k) [] = (m, k)
drive (m, k) (c ∷ cs) = drive ((step m c).0, apply sockets (step m c).1 k) cs

module _ {Float : Type 0} where
  All-delete :
      (P : Entry Float → Type 0) (key : String) (es : List (Entry Float))
      → All P es
      → All P (delete key es)
  unfolding delete
  All-delete P key [] all = tt
  All-delete P key (e ∷ es) all = elim (Bool-cases (has_key key e)) [
    | inl hit ↦ rw hit all.1
    | inr miss ↦ rw miss (all.0, All-delete P key es all.1)
  ]

  count_if-delete_other :
      (key j : String) (es : List (Entry Float))
      → str_eq key j ≡ false
      → count_if (has_key j) (delete key es) ≡ count_if (has_key j) es
  unfolding delete
  count_if-delete_other key j [] h = refl
  count_if-delete_other key j (e ∷ es) h = ground (
    arith,
    count_if-delete_other key j es,
    eq_iff e.bot.key_id key,
    eq_iff key j,
    eq_iff e.bot.key_id j,
  )

  find-some :
      (P : Entry Float → Type 0) (key : String) (es : List (Entry Float)) {e : Entry Float}
      → find key es ≡ some e
      → All P es
      → P e × (has_key key e ≡ true)
  unfolding find
  find-some P key [] q all = cc
  find-some P key (x ∷ xs) {e} q all = elim (Bool-cases (has_key key x)) [
    | inl hit ↦ let same : x ≡ e = ground arith in rw (← same) (all.0, hit)
    | inr miss ↦ find-some P key xs (rw miss at q) all.1
  ]

  matches-modify :
      (key : String) (g : Entry Float → Entry Float) (es : List (Entry Float)) (k : Sockets)
      → ((e : Entry Float) → matches k (g e) ≡ matches k e)
      → All (λ e. matches k e ≡ true) es
      → All (λ e. matches k e ≡ true) (modify key g es)
  unfolding modify
  matches-modify key g [] k keeps all = tt
  matches-modify key g (e ∷ es) k keeps all = elim (Bool-cases (has_key key e)) [
    | inl hit ↦ rw hit (keeps e ∙ all.0, all.1)
    | inr miss ↦ rw miss (all.0, matches-modify key g es k keeps all.1)
  ]

  module _ (key : String) (m : Manager Float) (k : Sockets) (a : Agrees k m) where
    -- The socket of the bot that the map has under the key.
    found_live : {e : Entry Float} → find key m.bots ≡ some e → k.live key ≡ is_hot e.tier
    found_live {e} found =
        let (same, hit) = find-some (λ x. matches k x ≡ true) key m.bots found a.of_bots in
        rw (str_eq-eq _ _ hit) at (bool_eq-eq (k.live e.bot.key_id) (is_hot e.tier) same)

    -- After `Remove` the key has no socket, and the other sockets are as before.
    remove_live :
        (j : String)
        → (apply sockets (remove key m).1 k).live j ≡ (if str_eq key j then false else k.live j)
    unfolding remove apply close_socket
    remove_live j = elim (Option-cases (find key m.bots)) [
      | inl missing ↦
          rw (missing, remove)
            (ground (arith, eq_iff key j, a.of_others key (find-none key m.bots missing)))
      | inr (e, found) ↦ rw (found, remove) (ground (arith, eq_iff key j, found_live found))
    ]

    remove_faulted : (apply sockets (remove key m).1 k).faulted ≡ k.faulted
    unfolding remove apply close_socket
    remove_faulted = elim (Option-cases (find key m.bots)) [
      | inl missing ↦ rw (missing, remove)
      | inr (e, found) ↦ rw (found, remove) (ground (arith, found_live found))
    ]

    remove-matches :
        (e : Entry Float)
        → (matches k e ≡ true) × (has_key key e ≡ false)
        → matches (apply sockets (remove key m).1 k) e ≡ true
    remove-matches e (same, other) =
        let miss : str_eq key e.bot.key_id ≡ false = str_eq_symm _ _ ∙ other in
        rw (remove_live e.bot.key_id, miss) same

    remove_others :
        (j : String)
        → count_if (has_key j) (remove key m).0.bots ≡ 0
        → (apply sockets (remove key m).1 k).live j ≡ false
    remove_others j none_left = elim (Bool-cases (str_eq key j)) [
      | inl same ↦ rw (remove_live j, same)
      | inr other ↦
          rw (remove_live j, other)
            (a.of_others j
              (unfold remove in (sym (count_if-delete_other key j m.bots other) ∙ none_left)))
    ]

    remove-Agrees : IsMap m → Agrees (apply sockets (remove key m).1 k) (remove key m).0
    remove-Agrees d = record {
      of_bots =
          All-mono (λ e. (matches k e ≡ true) × (has_key key e ≡ false))
            (λ e. matches (apply sockets (remove key m).1 k) e ≡ true) remove-matches
            (remove key m).0.bots
            (unfold remove in
              All-and (λ e. matches k e ≡ true) (λ e. has_key key e ≡ false) (delete key m.bots)
                (All-delete _ key m.bots a.of_bots)
                (All-of_zero (has_key key) (delete key m.bots) (count_if-delete_key key m.bots d)));
      of_others = remove_others;
    }

module _ {Float : Type 0} ⦃f : FloatOps Float⦄ where
  add-Agrees :
      (now : ℕ) (bot : BotRef) (m : Manager Float) (k : Sockets)
      → Agrees k m
      → Agrees k (add now bot m)
  unfolding add
  add-Agrees now bot m k a = elim (Option-cases (find bot.key_id m.bots)) [
    | inr (e, held) ↦ rw (held, add) a
    | inl missing ↦
        rw (missing, add)
          (record {
            of_bots =
                All-append (λ e. matches k e ≡ true) m.bots (new_entry now bot ∷ []) a.of_bots
                  (rw (a.of_others bot.key_id (find-none bot.key_id m.bots missing)) refl, tt);
            of_others = λ key none_left. a.of_others key (
                omega (
                  arith,
                  none_left,
                  count_if-append (has_key key) m.bots (new_entry now bot ∷ []),
                ));
          })
  ]

  touch-Agrees :
      (o : Orders Float) (now mem : ℕ) (key : String) (m : Manager Float) (k : Sockets)
      → IsRange o
      → IsMap m
      → Agrees k m
      → Agrees (apply sockets (touch o now mem key m).1 k) (touch o now mem key m).0
        × ((apply sockets (touch o now mem key m).1 k).faulted ≡ k.faulted)
  unfolding touch
  touch-Agrees o now mem key m k r d a =
      let m' : Manager Float = record m { bots = modify key (bump now) m.bots } in
      let same = λ (j : String).
        count_if-modify (λ b. str_eq b.key_id j) key (bump now) m.bots (λ e. unfold bump in refl) in
      let d' : IsMap m' = λ j. omega (arith, same j, d j) in
      let a' : Agrees k m' = record {
        of_bots = matches-modify key (bump now) m.bots k (λ e. unfold bump in refl) a.of_bots;
        of_others = λ j none_left. a.of_others j (sym (same j) ∙ none_left);
      } in
      (
        rebalance_locked-Agrees o now mem m' r d' k a',
        rebalance_locked_faulted o now mem m' r d' k a',
      )

  -- ForceTier reports a dial that failed: it is not in these histories.
  abbrev pub NoForce : Call Float → Type 0
  NoForce (adds now bot) = Unit {0}
  NoForce (removes k) = Unit {0}
  NoForce (touches o now mem k) = Unit {0}
  NoForce (rebalances o now mem) = Unit {0}
  NoForce (forces k t) = ⊥

  pub step-Agrees :
      (m : Manager Float) (k : Sockets) (c : Call Float)
      → CallIsRange c
      → NoForce c
      → IsMap m
      → Agrees k m
      → Agrees (apply sockets (step m c).1 k) (step m c).0
        × ((apply sockets (step m c).1 k).faulted ≡ k.faulted)
  unfolding step rebalance
  step-Agrees m k (adds now bot) r n d a = unfold apply in (add-Agrees now bot m k a, refl)
  step-Agrees m k (removes key) r n d a = (remove-Agrees key m k a d, remove_faulted key m k a)
  step-Agrees m k (touches o now mem key) r n d a = touch-Agrees o now mem key m k r d a
  step-Agrees m k (rebalances o now mem) r n d a =
      (rebalance_locked-Agrees o now mem m r d k a, rebalance_locked_faulted o now mem m r d k a)
  step-Agrees m k (forces key t) r n d a = absurd n

  drive-Agrees :
      (m : Manager Float) (k : Sockets) (cs : List (Call Float))
      → All CallIsRange cs
      → All NoForce cs
      → IsMap m
      → Agrees k m
      → Agrees (drive (m, k) cs).1 (drive (m, k) cs).0 × ((drive (m, k) cs).1.faulted ≡ k.faulted)
  unfolding drive
  drive-Agrees m k [] r n d a = (a, refl)
  drive-Agrees m k (c ∷ cs) r n d a =
      let (a', same) = step-Agrees m k c r.0 n.0 d a in
      let m' = (step m c).0 in
      let k' = apply sockets (step m c).1 k in
      let (end, quiet) = drive-Agrees m' k' cs r.1 n.1 (step-IsMap m c r.0 d) a' in
      (end, quiet ∙ same)

-- No socket is open yet.
abbrev pub closed : Sockets
closed = record { live = λ _. false; faulted = false }

module _ {Float : Type 0} ⦃f : FloatOps Float⦄ where
  -- In every history from `New` without ForceTier, in which each range visits every entry once,
  -- the sockets are those of the hot bots: a bot of the map has one exactly if it is hot, and a key
  -- outside the map has none. And no call misfits: none opens a socket that is open, closes one
  -- that is closed, or polls a bot that has one.
  pub drive-new-Agrees :
      (c : Config Float) (cs : List (Call Float))
      → All CallIsRange cs
      → All NoForce cs
      → Agrees (drive (new c, closed) cs).1 (drive (new c, closed) cs).0
        × ((drive (new c, closed) cs).1.faulted ≡ false)
  drive-new-Agrees c cs r n =
      drive-Agrees (new c) closed cs r n (unfold new in λ k. omega arith)
        (unfold new in record { of_bots = tt; of_others = λ key none_left. refl })
