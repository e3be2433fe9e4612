-- ===== src/Tier/Fill.antt =====
-- lib/tier/manager.go: the loops of steps 3 and 3b, on maps that stand for the bots with a slot.
use mezon_go_sdk_turbo.Prelude.{
  ℕ, zero, suc, ◌≡◌, refl, inl, inr, String, Bool, false, List, [], ◌∷◌, some, arith, All, All-mono,
  All-and, ap, All-of_zero, str_eq_self, count_if-zero, All-of_every, one_if, str_eq, Bool-cases,
  Option-cases, if◌then◌else◌, update,
}
use mezon_go_sdk_turbo.Prelude.Int.{ℤ}
use mezon_go_sdk_turbo.Float.{FloatOps}
use mezon_go_sdk_turbo.Types.{Tier, hot}
use mezon_go_sdk_turbo.Heap
use mezon_go_sdk_turbo.Heap.Content.{All-pop, count_if-pop}
use mezon_go_sdk_turbo.Tier.Config.{Config}
use mezon_go_sdk_turbo.Tier.Score.{Entry, higher}
use mezon_go_sdk_turbo.Tier.Slots.{
  Slots, no_slots, take_slot, capped, admit, admit_spare, has_room, fill_hot, fill_spare,
}
use mezon_go_sdk_turbo.Tier.Calls.{has_key}
use mezon_go_sdk_turbo.Tier.Keys.{Distinct}
use mezon_go_sdk_turbo.Tier.Budget.{in_slots}
use mezon_go_sdk_turbo.Tier.Members.{Holds}
use mezon_go_sdk_turbo.Tier.Fairness.{seated}
use mezon_go_sdk_turbo.Tier.Exact.{IsExact, Fresh, take_slot-IsExact}

module _ {Float : Type 0} where
  -- What the loops need of the entries that they have still to look at.
  abbrev pub Wanted : (String → Tier) → Entry Float → Type 0
  Wanted want e = want e.bot.key_id ≡ hot

  pub record Waiting (es : List (Entry Float)) (s : Slots) (xs : List (Entry Float)) : Type 0 where
    pub held : All (Holds es) xs
    pub fresh : All (Fresh s) xs
    pub once : Distinct xs

  -- A slot for the first leaves the others without one.
  take_slot-Waiting :
      (es : List (Entry Float)) (s : Slots) (e : Entry Float) (xs : List (Entry Float))
      → Waiting es s (e ∷ xs)
      → Waiting es (take_slot s e) xs
  unfolding take_slot
  take_slot-Waiting es s e xs w = record {
    held = w.held.1;
    fresh =
        All-mono (λ x. (Fresh s x) × (has_key e.bot.key_id x ≡ false)) (Fresh (take_slot s e))
          (λ x (f, other). rw (w.fresh.0, other) f) xs
          (All-and (Fresh s) (λ x. has_key e.bot.key_id x ≡ false) xs w.fresh.1
            (All-of_zero (has_key e.bot.key_id) xs
              (omega (arith, w.once e.bot.key_id, ap one_if (str_eq_self e.bot.key_id)))));
    once = λ k. omega (arith, w.once k);
  }

  rest-Waiting :
      (es : List (Entry Float)) (s : Slots) (e : Entry Float) (xs : List (Entry Float))
      → Waiting es s (e ∷ xs)
      → Waiting es s xs
  rest-Waiting es s e xs w = record {
    held = w.held.1;
    fresh = w.fresh.1;
    once = λ k. omega (arith, w.once k);
  }

  pub no_slots-IsExact :
      (es : List (Entry Float)) (want : String → Tier) → IsExact es (no_slots want)
  no_slots-IsExact es want = record {
    seats = λ t. omega (
      arith,
      count_if-zero (seated t (no_slots want)) es
          (All-of_every (λ e. seated t (no_slots want) e ≡ false) (λ e. ground arith) es),
    );
    size = omega (
      arith,
      count_if-zero (in_slots []) es (All-of_every (λ e. in_slots [] e ≡ false) (λ e. refl) es),
    );
    wanted = λ k held. cc;
  }

if_same-hot : (b : Bool) (t : Tier) → t ≡ hot → (if b then hot else t) ≡ hot
if_same-hot b t e = ground arith

module _ {Float : Type 0} ⦃f : FloatOps Float⦄ (c : Config Float) (es : List (Entry Float))
    (d : Distinct es) where
  pop-Waiting :
      (s : Slots) (h : List (Entry Float)) {e : Entry Float} {rest : List (Entry Float)}
      → Heap.pop higher h ≡ some (e, rest)
      → Waiting es s h
      → Waiting es s (e ∷ rest)
  pop-Waiting s h q w = record {
    held = All-pop higher (Holds es) h q w.held;
    fresh = All-pop higher (Fresh s) h q w.fresh;
    once = λ k. omega (arith, count_if-pop higher (has_key k) h q, w.once k);
  }

  pub fill_hot-IsExact :
      (eff : ℤ) (fuel : ℕ) (h : List (Entry Float)) (s : Slots)
      → Waiting es s h
      → All (Wanted s.want) h
      → IsExact es s
      → IsExact es (fill_hot c eff fuel h s)
  unfolding fill_hot admit
  fill_hot-IsExact eff zero h s w a i = i
  fill_hot-IsExact eff (suc fuel) h s w a i = elim (Option-cases (Heap.pop higher h)) [
    | inl q ↦ rw (q, fill_hot) i
    | inr ((e, rest), q) ↦
        let v = pop-Waiting s h q w in
        let (want, wants) = All-pop higher (Wanted s.want) h q a in
        elim (Bool-cases (has_room eff s)) [
          | inl room ↦ elim (Bool-cases (capped c s e)) [
            | inl full ↦
                rw (q, room, full, fill_hot)
                  (fill_hot-IsExact eff fuel rest s (rest-Waiting es s e rest v) wants i)
            | inr free ↦
                rw (q, room, free, fill_hot)
                  (fill_hot-IsExact eff fuel rest (take_slot s e) (take_slot-Waiting es s e rest v)
                    wants (take_slot-IsExact es d s e v.held.0 v.fresh.0 want i))
          ]
          | inr full ↦ rw (q, full, fill_hot) i
        ]
  ]

  -- A spare bot that gets a slot is then wanted hot.
  admit_spare-IsExact :
      (s : Slots) (e : Entry Float)
      → Holds es e
      → Fresh s e
      → capped c s e ≡ false
      → IsExact es s
      → IsExact es (admit_spare c s e)
  unfolding admit_spare
  admit_spare-IsExact s e h fresh free i =
      let s' : Slots = record s { want = update s.want e.bot.key_id hot } in
      let i' : IsExact es s' = record {
        seats = i.seats;
        size = i.size;
        wanted = λ k held. if_same-hot (str_eq e.bot.key_id k) (s.want k) (i.wanted k held);
      } in
      rw free (unfold take_slot in take_slot-IsExact es d s' e h fresh (rw str_eq_self) i')

  admit_spare-Waiting :
      (s : Slots) (e : Entry Float) (xs : List (Entry Float))
      → Waiting es s (e ∷ xs)
      → Waiting es (admit_spare c s e) xs
  unfolding admit_spare
  admit_spare-Waiting s e xs w = elim (Bool-cases (capped c s e)) [
    | inl full ↦ rw full (rest-Waiting es s e xs w)
    | inr free ↦ rw free (
        let v = take_slot-Waiting es s e xs w in
        record { held = v.held; fresh = v.fresh; once = v.once })
  ]

  pub fill_spare-IsExact :
      (eff : ℤ) (xs : List (Entry Float)) (s : Slots)
      → Waiting es s xs
      → IsExact es s
      → IsExact es (fill_spare c eff xs s)
  unfolding fill_spare
  fill_spare-IsExact eff [] s w i = i
  fill_spare-IsExact eff (x ∷ xs) s w i = elim (Bool-cases (has_room eff s)) [
    | inl room ↦ elim (Bool-cases (capped c s x)) [
      | inl full ↦
          rw (room, full, admit_spare) (fill_spare-IsExact eff xs s (rest-Waiting es s x xs w) i)
      | inr free ↦ rw room (
          fill_spare-IsExact eff xs (admit_spare c s x) (admit_spare-Waiting s x xs w)
            (admit_spare-IsExact s x w.held.0 w.fresh.0 free i))
    ]
    | inr full ↦ rw full i
  ]
