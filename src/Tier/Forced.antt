-- ===== src/Tier/Forced.antt =====
-- lib/tier/manager.go: ForceTier to a tier that is not hot, on a bot whose socket is closed.
use mezon_go_sdk_turbo.Prelude.{
  ◌≡◌, refl, sym, ◌∙◌, inl, inr, String, true, false, List, [], ◌∷◌, arith, All, All-mono, All-and,
  All-of_zero, str_eq_symm, str_eq, Bool-cases,
}
use mezon_go_sdk_turbo.Types.{Tier, is_hot}
use mezon_go_sdk_turbo.Tier.Score.{Entry}
use mezon_go_sdk_turbo.Tier.Manager.{Manager}
use mezon_go_sdk_turbo.Tier.Calls.{has_key, modify, force_tier}
use mezon_go_sdk_turbo.Tier.Keys.{Distinct, IsMap, count_if-modify}
use mezon_go_sdk_turbo.Tier.Actuator.{Sockets, close_socket}
use mezon_go_sdk_turbo.Tier.Agreement.{matches, Agrees}

module _ {Float : Type 0} (key : String) (t : Tier) (cool : is_hot t ≡ false) (k : Sockets) where
  close_socket-matches :
      (e : Entry Float)
      → (matches k e ≡ true) × (has_key key e ≡ false)
      → matches (close_socket key k) e ≡ true
  unfolding close_socket
  close_socket-matches e (same, other) =
      let miss : str_eq key e.bot.key_id ≡ false = str_eq_symm _ _ ∙ other in rw miss same

  forced-matches :
      (e : Entry Float)
      → has_key key e ≡ true
      → matches (close_socket key k) (record e { tier = t }) ≡ true
  unfolding close_socket
  forced-matches e hit =
      let here : str_eq key e.bot.key_id ≡ true = str_eq_symm _ _ ∙ hit in rw (here, cool) refl

  modify-matches :
      (es : List (Entry Float))
      → Distinct es
      → All (λ e. matches k e ≡ true) es
      → All
          (λ e. matches (close_socket key k) e ≡ true)
          (modify key (λ e. record e { tier = t }) es)
  unfolding modify
  modify-matches [] d all = tt
  modify-matches (e ∷ es) d all = elim (Bool-cases (has_key key e)) [
    | inl hit ↦ rw hit (
      forced-matches e hit,
      All-mono (λ x. (matches k x ≡ true) × (has_key key x ≡ false)) _ close_socket-matches es
          (All-and _ _ es all.1 (All-of_zero (has_key key) es (ground (arith, d key, hit)))),
    )
    | inr miss ↦
        rw miss
          (close_socket-matches e (all.0, miss), modify-matches es (λ j. ground (arith, d j)) all.1)
  ]

  pub force_tier-Agrees :
      (m : Manager Float) → IsMap m → Agrees k m → Agrees (close_socket key k) (force_tier key t m)
  unfolding force_tier
  force_tier-Agrees m d a = record {
    of_bots = modify-matches m.bots d a.of_bots;
    of_others = λ j none_left.
        let before = a.of_others j (
          sym (
            count_if-modify (λ b. str_eq b.key_id j) key (λ e. record e { tier = t }) m.bots
              (λ e. refl))
          ∙ none_left) in
        unfold close_socket in (ground (arith, before));
  }
