-- ===== src/Tier/Ready.antt =====
-- lib/tier/manager.go: what the loops of steps 3 and 3b start with: the candidates of step 1, and
-- the sorted spare bots.
use mezon_go_sdk_turbo.Prelude.{
  ℕ, ◌+◌, ◌≤◌, ◌≡◌, refl, ap, ◌∙◌, inl, inr, String, Bool, false, List, [], ◌∷◌, arith, All,
  All-mono, All-of_every, str_eq_self, length, contains, count_if, count_if-append, count_if-perm,
  one_if, Bool-cases, update,
}
use mezon_go_sdk_turbo.Float.{FloatOps}
use mezon_go_sdk_turbo.Types.{Tier, hot, warm, cold}
use mezon_go_sdk_turbo.Heap
use mezon_go_sdk_turbo.Heap.Content.{All-init, count_if-init}
use mezon_go_sdk_turbo.Tier.Config.{Config, eff_hot}
use mezon_go_sdk_turbo.Tier.Score.{
  Entry, Scored, nothing_scored, higher, score_all, score_round, score_entry, desired_tier,
  push_if_hot,
}
use mezon_go_sdk_turbo.Tier.Slots.{Slots, no_slots, has_room, left_out, sort_entries, insert_sorted}
use mezon_go_sdk_turbo.Tier.Manager.{
  Manager, Orders, IsRange, hot_slots, spare_slots, scored, slots,
}
use mezon_go_sdk_turbo.Tier.Calls.{has_key}
use mezon_go_sdk_turbo.Tier.Keys.{Distinct, IsMap, scored-Distinct}
use mezon_go_sdk_turbo.Tier.Members.{
  Holds, candidates-Holds, All-Holds_perm, push_if_hot-All, sort_entries-All, left_out-All,
}
use mezon_go_sdk_turbo.Tier.Exact.{IsExact, Fresh}
use mezon_go_sdk_turbo.Tier.Fill.{
  Waiting, Wanted, fill_hot-IsExact, fill_spare-IsExact, no_slots-IsExact,
}

module _ {Float : Type 0} ⦃f : FloatOps Float⦄ where
  count_if-insert_sorted :
      (p : Entry Float → Bool) (e : Entry Float) (es : List (Entry Float))
      → count_if p (insert_sorted e es) ≡ one_if (p e) + count_if p es
  unfolding insert_sorted
  count_if-insert_sorted p e [] = omega arith
  count_if-insert_sorted p e (x ∷ xs) = ground (arith, count_if-insert_sorted p e xs)

  count_if-sort_entries :
      (p : Entry Float → Bool) (es : List (Entry Float))
      → count_if p (sort_entries es) ≡ count_if p es
  unfolding sort_entries
  count_if-sort_entries p [] = refl
  count_if-sort_entries p (x ∷ xs) =
      omega (arith, count_if-insert_sorted p x (sort_entries xs), count_if-sort_entries p xs)

  count_if-left_out :
      (p : Entry Float → Bool) (keys : List String) (es : List (Entry Float))
      → count_if p (left_out keys es) ≤ count_if p es
  unfolding left_out
  count_if-left_out p keys [] = omega arith
  count_if-left_out p keys (e ∷ es) = ground (arith, count_if-left_out p keys es)

  left_out-Fresh : (s : Slots) (es : List (Entry Float)) → All (Fresh s) (left_out s.selected es)
  unfolding left_out
  left_out-Fresh s [] = tt
  left_out-Fresh s (e ∷ es) = elim (Bool-cases (contains s.selected e.bot.key_id)) [
    | inl held ↦ rw held (left_out-Fresh s es)
    | inr missing ↦ rw missing (missing, left_out-Fresh s es)
  ]

  -- Step 1 only writes the keys of its entries into `want`.
  want-score_all :
      (c : Config Float) (now : ℕ) (es : List (Entry Float)) (s : Scored Float) (k : String)
      → count_if (has_key k) es ≡ 0
      → (score_all c now es s).want k ≡ s.want k
  unfolding score_all
  want-score_all c now [] s k h = refl
  want-score_all c now (e ∷ es) s k h =
      let miss : has_key k e ≡ false = ground arith in
      want-score_all c now es (score_round c now e s) k (omega arith)
      ∙ unfold score_round in rw miss

  missed-Wanted :
      (e x : Entry Float) (want : String → Tier) (t : Tier)
      → has_key x.bot.key_id e ≡ false
      → Wanted want x
      → update want e.bot.key_id t x.bot.key_id ≡ hot
  missed-Wanted e x want t miss w = rw miss w

  -- What step 1 wants of every candidate is that it be hot.
  candidates-Wanted :
      (c : Config Float) (now : ℕ) (es : List (Entry Float)) (s : Scored Float)
      → Distinct es
      → All
          (λ x. (s.want x.bot.key_id ≡ hot) × (count_if (has_key x.bot.key_id) es ≡ 0))
          s.candidates
      → All (Wanted (score_all c now es s).want) (score_all c now es s).candidates
  unfolding score_all
  candidates-Wanted c now [] s d h = All-mono _ _ (λ x p. p.0) s.candidates h
  candidates-Wanted c now (e ∷ es) s d h =
      candidates-Wanted c now es (score_round c now e s) (λ k. omega (arith, d k))
        (unfold score_round score_entry in
          push_if_hot-All _ (desired_tier c now e) (score_entry c now e) s.candidates
            (λ t. (
              rw (str_eq_self, t),
              omega (arith, d e.bot.key_id, ap one_if (str_eq_self e.bot.key_id)),
            ))
            (All-mono _ _
              (λ x p. (
                missed-Wanted e x s.want (desired_tier c now e) (ground arith) p.0,
                omega (arith, p.1),
              ))
              s.candidates h))

  count_if-push_if_hot :
      (p : Entry Float → Bool) (t : Tier) (e : Entry Float) (cs : List (Entry Float))
      → count_if p (push_if_hot t e cs) ≤ count_if p cs + one_if (p e)
  unfolding push_if_hot Heap.push
  count_if-push_if_hot p hot e cs = omega (arith, count_if-append p cs (e ∷ []))
  count_if-push_if_hot p warm e cs = omega arith
  count_if-push_if_hot p cold e cs = omega arith

  count_if-candidates :
      (c : Config Float) (now : ℕ) (es : List (Entry Float)) (s : Scored Float) (k : String)
      → count_if (has_key k) (score_all c now es s).candidates
        ≤ count_if (has_key k) s.candidates + count_if (has_key k) es
  unfolding score_all
  count_if-candidates c now [] s k = omega arith
  count_if-candidates c now (e ∷ es) s k =
      let first : count_if (has_key k) (score_round c now e s).candidates
          ≤ count_if (has_key k) s.candidates + one_if (has_key k e) =
        unfold score_round score_entry in
        count_if-push_if_hot (has_key k) (desired_tier c now e) (score_entry c now e)
          s.candidates in
      omega (arith, first, count_if-candidates c now es (score_round c now e s) k)

module _ {Float : Type 0} ⦃f : FloatOps Float⦄ (o : Orders Float) (now mem : ℕ) (m : Manager Float)
    (r : IsRange o) (d : IsMap m) where
  few :
      (k : String)
      → count_if (has_key k) (scored o now m).candidates ≤ count_if (has_key k) (o.scoring m.bots)
  unfolding scored
  few k = omega (arith, count_if-candidates m.cfg now (o.scoring m.bots) nothing_scored k)

  candidates-Waiting :
      Waiting (scored o now m).entries (no_slots (scored o now m).want) (scored o now m).candidates
  candidates-Waiting = record {
    held = candidates-Holds o now m r;
    fresh = All-of_every _ (λ e. refl) (scored o now m).candidates;
    once = λ k. omega (arith, few k, count_if-perm (has_key k) (r.scoring m.bots), d k);
  }

  range-Distinct : Distinct (o.scoring m.bots)
  range-Distinct k = omega (arith, count_if-perm (has_key k) (r.scoring m.bots), d k)

  scored-Wanted : All (Wanted (scored o now m).want) (scored o now m).candidates
  unfolding scored
  scored-Wanted = candidates-Wanted m.cfg now (o.scoring m.bots) _ range-Distinct tt

  init-Waiting :
      (es : List (Entry Float)) (s : Slots) (xs : List (Entry Float))
      → Waiting es s xs
      → Waiting es s (Heap.init higher xs)
  init-Waiting es s xs w = record {
    held = All-init higher (Holds es) xs w.held;
    fresh = All-init higher (Fresh s) xs w.fresh;
    once = λ k. omega (arith, count_if-init higher (has_key k) xs, w.once k);
  }

  spare-Waiting :
      (es : List (Entry Float)) (s : Slots)
      → Distinct es
      → Waiting es s (sort_entries (left_out s.selected (o.spare es)))
  spare-Waiting es s once =
      let spare = left_out s.selected (o.spare es) in
      record {
        held =
            sort_entries-All (Holds es) spare
              (left_out-All (Holds es) s.selected (o.spare es) (All-Holds_perm es (r.spare es)));
        fresh = sort_entries-All (Fresh s) spare (left_out-Fresh s (o.spare es));
        once = λ k. omega (
          arith,
          count_if-sort_entries (has_key k) spare,
          count_if-left_out (has_key k) s.selected (o.spare es),
          count_if-perm (has_key k) (r.spare es),
          once k,
        );
      }

  pub hot_slots-IsExact :
      IsExact (scored o now m).entries (hot_slots m.cfg (eff_hot m.cfg mem) (scored o now m))
  unfolding hot_slots
  hot_slots-IsExact =
      let s = scored o now m in
      fill_hot-IsExact m.cfg s.entries (scored-Distinct o now m r d) (eff_hot m.cfg mem)
        (length s.candidates) (Heap.init higher s.candidates) (no_slots s.want)
        (init-Waiting s.entries (no_slots s.want) s.candidates candidates-Waiting)
        (All-init higher (Wanted s.want) s.candidates scored-Wanted)
        (no_slots-IsExact s.entries s.want)

  -- When the slots are filled the maps count the bots that have one, and each of those is wanted hot.
  pub slots-IsExact : IsExact (scored o now m).entries (slots o now mem m)
  unfolding slots spare_slots
  slots-IsExact =
      let eff = eff_hot m.cfg mem in
      let s = scored o now m in
      let h = hot_slots m.cfg eff s in
      elim (Bool-cases (has_room eff h)) [
        | inl room ↦ rw room (
            fill_spare-IsExact m.cfg s.entries (scored-Distinct o now m r d) eff
              (sort_entries (left_out h.selected (o.spare s.entries))) h
              (spare-Waiting s.entries h (scored-Distinct o now m r d)) hot_slots-IsExact)
        | inr full ↦ rw full hot_slots-IsExact
      ]
