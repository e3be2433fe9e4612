-- ===== src/Turbo/Life/Lost.antt =====
-- lib/turbo/turbo.go: the steps after which a key has a Conn that is closed for good.
use mezon_go_sdk_turbo.Prelude.{ℕ, ◌<◌, ◌≡◌, ap, String, true, none, str_eq, str_eq_self, arith}
use mezon_go_sdk_turbo.Turbo.Life.{
  over, Link, System, open_step, dial_step, register_step, end_step, on_close_step, Reach, here,
  next, opens, dials, registers, ends, on_closes,
}
use mezon_go_sdk_turbo.Turbo.Life.Deaf.{is_over, IsQuiet, IsDeaf, Later, Later-IsDeaf}

module _ (key : String) (s : System) (q : IsQuiet key s) (cold : s.engine.hot key ≡ none) where
  abbrev opened : System
  opened = opens key s

  opened_lem :
      (opened.engine.opening key ≡ true)
      × (opened.dialing key ≡ 1)
      × (opened.next ≡ s.next)
      × (opened.links ≡ s.links)
      × (opened.engine.hot key ≡ none)
  unfolding opens
  opened_lem = rw (cold, q.unopened) (ground (arith, q.undialed, str_eq_self key))

  abbrev dialed : System
  dialed = dials key opened

  abbrev lost : System
  lost = on_closes opened.next (ends opened.next dialed)

  abbrev deaf : System
  deaf = registers opened.next lost

  lost_lem :
      (lost.engine.opening key ≡ true)
      × (lost.dialing key ≡ 0)
      × (lost.engine.hot key ≡ none)
      × ((lost.links opened.next).owner ≡ key)
      × ((lost.links opened.next).loop ≡ over)
      × ((lost.links opened.next).closed ≡ true)
      × ((lost.links opened.next).held ≡ true)
  unfolding on_closes ends dials
  lost_lem = let (o, d, n, l, h) = opened_lem in ground (arith, o, d, h, str_eq_self key)

  lost_silent :
      (c : ℕ)
      → c < lost.next
      → str_eq (lost.links c).owner key ≡ true
      → is_over (lost.links c).loop ≡ true
  unfolding on_closes ends dials
  lost_silent c m own =
      let (o, d, n, l, h) = opened_lem in
      let same = ap (λ (f : ℕ → Link). f c) l in ground (arith, same, n, q.silent c, m, own)

  lost_next : opened.next < lost.next
  unfolding on_closes ends dials
  lost_next = omega arith

  deaf-IsDeaf : IsDeaf key opened.next deaf
  unfolding registers
  deaf-IsDeaf =
      let (o, d, h, own, run, shut, held) = lost_lem in
      record {
        registered = ground (arith, o, h, own, str_eq_self key);
        closed = ground (arith, shut);
        taken = (lost_next, ground (arith, held));
        quiet = record {
          unopened = ground (arith, o, h, own, str_eq_self key);
          undialed = d;
          silent = λ c m mine. ground (arith, lost_silent c);
        };
      }

  Reach-deaf : Reach s deaf
  unfolding on_closes ends dials
  Reach-deaf =
      let c = opened.next in
      let dialing : Reach s dialed =
        next (next here (open_step key)) (dial_step key (omega (arith, opened_lem.1))) in
      let ending : Reach s (ends c dialed) =
        next dialing (end_step c (omega arith) (ground arith)) in
      let silent : Reach s lost = next ending (on_close_step c (omega arith) (ground arith)) in
      next silent (register_step c (omega arith) (ground arith))

-- Where no goroutine and no read loop is at work for a key and it has no Conn, there are steps
-- after which it has a Conn that is closed, and has it after all later steps but those of an
-- OpenHot or a CloseHot for the key.
pub IsDeaf-forever :
    (key : String) (s : System)
    → IsQuiet key s
    → s.engine.hot key ≡ none
    → (c : ℕ) × ((t : System) × (Reach s t × ((u : System) → Later key t u → IsDeaf key c u)))
IsDeaf-forever key s q cold = (
  (opened key s q cold).next,
  (
    deaf key s q cold,
    (
      Reach-deaf key s q cold,
      λ u l. Later-IsDeaf key (opened key s q cold).next l (deaf-IsDeaf key s q cold),
    ),
  ),
)
