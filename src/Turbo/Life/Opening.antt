-- ===== src/Turbo/Life/Opening.antt =====
-- lib/turbo/turbo.go: the keys in `opening`, for which OpenHot does nothing, and their goroutines.
use mezon_go_sdk_turbo.Prelude.{
  ℕ, ◌<◌, ◌≡◌, ◌⊎◌, inl, inr, String, Bool-cases, true, false, str_eq, eq_iff, arith,
}
use mezon_go_sdk_turbo.Prelude.Int.{ℤ}
use mezon_go_sdk_turbo.Ws.PingWheel.{new_ping_wheel}
use mezon_go_sdk_turbo.Turbo.Life.{
  System, Step, open_step, fail_step, dial_step, register_step, close_step, finish_step, end_step,
  on_close_step, prune_step, Reach, here, next, start, opens, fails, dials, registers, closes,
  finishes, ends, on_closes, prunes,
}

-- A goroutine of the key that has a Conn.
abbrev pub Holds : System → String → ℕ → Type 0
Holds s key c = (c < s.next) × ((s.links c).held ≡ true) × (str_eq (s.links c).owner key ≡ true)

abbrev pub HasGoroutine : System → String → Type 0
HasGoroutine s key = (0 < s.dialing key) ⊎ ((c : ℕ) × Holds s key c)

abbrev pub IsOpening : System → Type 0
IsOpening s = (key : String) → s.engine.opening key ≡ true → HasGoroutine s key

keeps_goroutine :
    (s t : System) (key : String)
    → (0 < s.dialing key → HasGoroutine t key)
    → ((c : ℕ) → Holds s key c → HasGoroutine t key)
    → HasGoroutine s key
    → HasGoroutine t key
keeps_goroutine s t key f g (inl l) = f l
keeps_goroutine s t key f g (inr (c, h)) = g c h

opens-IsOpening : (k : String) (s : System) → IsOpening s → IsOpening (opens k s)
unfolding opens
opens-IsOpening k s h key o = elim (Bool-cases (s.engine.opening key)) [
  | inl was ↦
      keeps_goroutine s (opens k s) key (λ l. inl (ground (arith, l)))
        (λ c x. inr (c, (ground (arith, x), ground (arith, x), ground (arith, x)))) (h key was)
  | inr new ↦ inl (ground (arith, o, new, eq_iff k key))
]

dials-IsOpening : (k : String) (s : System) → IsOpening s → IsOpening (dials k s)
unfolding dials
dials-IsOpening k s h key o =
    keeps_goroutine s (dials k s) key
      (λ l. elim (Bool-cases (str_eq k key)) [
        | inl mine ↦ inr (s.next, (omega arith, ground arith, ground (arith, mine)))
        | inr other ↦ inl (ground (arith, l, other))
      ])
      (λ c x. inr (c, (omega (arith, x.0), ground (arith, x.0, x.1), ground (arith, x.0, x.2))))
      (h key o)

registers-IsOpening : (c : ℕ) (s : System) → IsOpening s → IsOpening (registers c s)
unfolding registers
registers-IsOpening c s h key o =
    let other : str_eq (s.links c).owner key ≡ false =
      ground (arith, o, eq_iff (s.links c).owner key) in
    let was : s.engine.opening key ≡ true = ground (arith, o) in
    keeps_goroutine s (registers c s) key (λ l. inl l)
      (λ d x. inr (d, (x.0, ground (arith, x.1, x.2, other), ground (arith, x.2, other))))
      (h key was)

closes-IsOpening : (k : String) (s : System) → IsOpening s → IsOpening (closes k s)
unfolding closes
closes-IsOpening k s h key o =
    keeps_goroutine s (closes k s) key (λ l. inl l)
      (λ d x. inr (d, (x.0, ground (arith, x.1), ground (arith, x.2)))) (h key (ground (arith, o)))

fails-IsOpening : (k : String) (s : System) → IsOpening s → IsOpening (fails k s)
unfolding fails
fails-IsOpening k s h key o =
    let other : str_eq k key ≡ false = ground (arith, o, eq_iff k key) in
    keeps_goroutine s (fails k s) key (λ l. inl (ground (arith, l, other))) (λ d x. inr (d, x))
      (h key (ground (arith, o)))

on_closes-IsOpening : (c : ℕ) (s : System) → IsOpening s → IsOpening (on_closes c s)
unfolding on_closes
on_closes-IsOpening c s h key o =
    keeps_goroutine s (on_closes c s) key (λ l. inl l)
      (λ d x. inr (d, (x.0, ground (arith, x.1), ground (arith, x.2)))) (h key (ground (arith, o)))

finishes-IsOpening : (c : ℕ) (s : System) → IsOpening s → IsOpening (finishes c s)
unfolding finishes
finishes-IsOpening c s h key o =
    keeps_goroutine s (finishes c s) key (λ l. inl l)
      (λ d x. inr (d, (x.0, ground (arith, x.1), ground (arith, x.2)))) (h key o)

ends-IsOpening : (c : ℕ) (s : System) → IsOpening s → IsOpening (ends c s)
unfolding ends
ends-IsOpening c s h key o =
    keeps_goroutine s (ends c s) key (λ l. inl l)
      (λ d x. inr (d, (x.0, ground (arith, x.1), ground (arith, x.2)))) (h key o)

Step-IsOpening : {s t : System} → Step s t → IsOpening s → IsOpening t
Step-IsOpening {s} (open_step key) h = opens-IsOpening key s h
Step-IsOpening {s} (fail_step key l) h = fails-IsOpening key s h
Step-IsOpening {s} (dial_step key l) h = dials-IsOpening key s h
Step-IsOpening {s} (register_step c l held) h = registers-IsOpening c s h
Step-IsOpening {s} (close_step key) h = closes-IsOpening key s h
Step-IsOpening {s} (finish_step c l closing) h = finishes-IsOpening c s h
Step-IsOpening {s} (end_step c l runs) h = ends-IsOpening c s h
Step-IsOpening {s} (on_close_step c l due) h = on_closes-IsOpening c s h
Step-IsOpening {s} (prune_step c l closed) h = unfold prunes in h

Reach-IsOpening : {s t : System} → Reach s t → IsOpening s → IsOpening t
Reach-IsOpening here h = h
Reach-IsOpening (next r st) h = Step-IsOpening st (Reach-IsOpening r h)

-- In every history of an engine from New on, a key in `opening` has a goroutine that has not
-- dialed yet, or one that holds a Conn of the key: it is not shut out for ever.
pub Reach-start-IsOpening :
    (interval : ℤ) {s : System} → Reach (start (new_ping_wheel interval)) s → IsOpening s
Reach-start-IsOpening interval r =
    Reach-IsOpening r (unfold start in unfold new_ping_wheel in λ key o. ground (arith, o))
