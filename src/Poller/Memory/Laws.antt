-- ===== src/Poller/Memory/Laws.antt =====
-- What the RedisStore in memory remembers, by call.
use mezon_go_sdk_turbo.Prelude.{
  ◌+◌, ◌≤◌, ◌≡◌, refl, ap, sym, subst, ◌∙◌, inl, inr, String, Bool, true, false, Bytes, is_empty,
  update, update_self, str_eq, str_eq-eq, arith, Bool-cases,
}
use mezon_go_sdk_turbo.Ws.Content.Units.{take}
use mezon_go_sdk_turbo.State.{Result, ok, err}
use mezon_go_sdk_turbo.State.RedisStore.{
  new_redis_store, k, seen, added, trimmed, below, add_channel,
}
use mezon_go_sdk_turbo.Poller.Step.{Keeps}
use mezon_go_sdk_turbo.Poller.Memory.{
  Sorted, Memory, is_member, small_store, recorded, until, due, grown, due_grows, due_new, room_le,
  plus_one,
}

abbrev trim : Sorted → Sorted
trim e = record e { members = take 2 e.members }

-- The trim is a second change of the set that ZADD has changed.
abbrev after_new : String → Bytes → Memory → Memory
after_new rk x s = let s' = update s rk (plus_one x (s rk)) in update s' rk (trim (s' rk))

after_new-grown : (rk : String) (x : Bytes) (s : Memory) → after_new rk x s rk ≡ grown x (s rk)
after_new-grown rk x s =
    update_self (update s rk (plus_one x (s rk))) rk (trim (update s rk (plus_one x (s rk)) rk))
    ∙ ap trim (update_self s rk (plus_one x (s rk)))

after_new_other :
    (rk rk' : String) (x : Bytes) (s : Memory)
    → str_eq rk rk' ≡ false
    → after_new rk x s rk' ≡ s rk'
after_new_other rk rk' x s differ = rw differ refl

after_new-keeps :
    (rk rk' : String) (x y : Bytes) (s : Memory)
    → (due y (s rk') ≤ due y (after_new rk x s rk'))
      × ((after_new rk x s rk').news ≤ (s rk').news + 1)
after_new-keeps rk rk' x y s = elim (Bool-cases (str_eq rk rk')) [
  | inl same ↦
      let grew = after_new-grown rk x s in
      subst
        (λ q.
          (due y (s q) ≤ due y (after_new rk x s q)) × ((after_new rk x s q).news ≤ (s q).news + 1))
        (str_eq-eq rk rk' same)
        (omega (arith, due_grows x y (s rk), ap (due y) grew), omega (arith, ap (λ e. e.news) grew))
  | inr differ ↦
      let same = after_new_other rk rk' x s differ in
      (omega (arith, ap (due y) same), omega (arith, ap (λ e. e.news) same))
]

-- Seen does nothing on an empty id or one that it holds, and records another one.
abbrev answer : Bool → Bool → String → Bytes → Memory → Result Bool × Memory
answer true held rk x s = (ok false, s)
answer false true rk x s = (ok true, s)
answer false false rk x s = (ok false, after_new rk x s)

seen-answer :
    (key : String) (x : Bytes) (s : Memory)
    → small_store.seen key x s
      ≡ answer (is_empty x) (is_member x (s (k key "dedup")).members) (k key "dedup") x s
unfolding seen added trimmed new_redis_store below
seen-answer key x s = elim (Bool-cases (is_empty x)) [
  | inl empty ↦ rw empty refl
  | inr named ↦ elim (Bool-cases (is_member x (s (k key "dedup")).members)) [
    | inl held ↦ rw (named, held) refl
    | inr absent ↦ rw (named, absent) refl
  ]
]

answer-keeps :
    (empty held : Bool) (rk rk' : String) (x y : Bytes) (s : Memory)
    → (due y (s rk') ≤ due y ((answer empty held rk x s).1 rk'))
      × (((answer empty held rk x s).1 rk').news ≤ (s rk').news + 1)
answer-keeps true held rk rk' x y s = (omega arith, omega arith)
answer-keeps false true rk rk' x y s = (omega arith, omega arith)
answer-keeps false false rk rk' x y s = after_new-keeps rk rk' x y s

pub seen-Keeps :
    (key : String) (x : Bytes) (s : Memory) → Keeps recorded until 1 s (small_store.seen key x s).1
seen-Keeps key x s k' y =
    subst (λ o. (until k' y s ≤ until k' y o.1) × (recorded k' o.1 ≤ recorded k' s + 1))
      (sym (seen-answer key x s))
      (answer-keeps (is_empty x) (is_member x (s (k key "dedup")).members) (k key "dedup")
        (k k' "dedup") x y s)

answered : Result Bool → Bool
answered (ok b) = b
answered (err e) = true

answer_new :
    (held : Bool) (rk : String) (x : Bytes) (s t : Memory)
    → answer false held rk x s ≡ (ok false, t)
    → (held ≡ false) × (after_new rk x s ≡ t)
unfolding answered
answer_new true rk x s t h =
    let clash : true ≡ false = ap (λ o. answered o.0) h in absurd (ground (arith, clash))
answer_new false rk x s t h = (refl, ap (λ o. o.1) h)

-- An id that Seen has not seen is there for two more.
pub until_fresh :
    (key : String) (x : Bytes) (s t : Memory)
    → is_empty x ≡ false
    → small_store.seen key x s ≡ (ok false, t)
    → until key x s + 2 ≤ until key x t
until_fresh key x s t named h =
    let rk = k key "dedup" in
    let held = is_member x (s rk).members in
    let said : answer false held rk x s ≡ (ok false, t) =
      ap (λ b. answer b held rk x s) (sym named) ∙ sym (seen-answer key x s) ∙ h in
    let (absent, grew) = answer_new held rk x s t said in
    omega (
      arith,
      due_new x (s rk) absent,
      ap (due x) (after_new-grown rk x s),
      ap (λ u. due x (u rk)) grew,
    )

pub until_bounded : (key : String) (x : Bytes) (s : Memory) → until key x s ≤ recorded key s + 2
until_bounded key x s = omega (arith, room_le 2 x (s (k key "dedup")).members)

answers_of :
    (empty held : Bool) (rk : String) (x : Bytes) (s : Memory)
    → (b : Bool) × ((t : Memory) × (answer empty held rk x s ≡ (ok b, t)))
answers_of true held rk x s = (false, (s, refl))
answers_of false true rk x s = (true, (s, refl))
answers_of false false rk x s = (false, (after_new rk x s, refl))

-- Seen answers without an error.
pub seen_answers :
    (key : String) (x : Bytes) (s : Memory)
    → (b : Bool) × ((t : Memory) × (small_store.seen key x s ≡ (ok b, t)))
seen_answers key x s =
    let (b, (t, e)) =
      answers_of (is_empty x) (is_member x (s (k key "dedup")).members) (k key "dedup") x s in
    (b, (t, seen-answer key x s ∙ e))

pub Keeps_same : (s : Memory) → Keeps recorded until 0 s s
Keeps_same s k' y = (omega arith, omega arith)

pub add_channel-Keeps :
    (key : String) (ch : Bytes) (s : Memory)
    → Keeps recorded until 0 s (small_store.add_channel key ch s).1
unfolding add_channel
add_channel-Keeps key ch s = elim (Bool-cases (is_empty ch)) [
  | inl none_given ↦ rw none_given (Keeps_same s)
  | inr given ↦ rw given (Keeps_same s)
]
