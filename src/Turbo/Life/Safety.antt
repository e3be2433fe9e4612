-- ===== src/Turbo/Life/Safety.antt =====
-- lib/turbo/turbo.go: an invariant of the steps of Turbo/Life: where each socket is.
use mezon_go_sdk_turbo.Prelude.{
  ℕ, ◌<◌, ◌==◌, ◌≡◌, refl, String, Bool, true, false, ◌&&◌, ◌||◌, Option, none, some, str_eq,
  eq_iff, arith, if◌then◌else◌,
}
use mezon_go_sdk_turbo.Prelude.Int.{ℤ}
use mezon_go_sdk_turbo.Ws.PingWheel.{new_ping_wheel, has}
use mezon_go_sdk_turbo.Ws.PingWheel.Tick.{has-add, has-remove}
use mezon_go_sdk_turbo.Turbo.{Engine}
use mezon_go_sdk_turbo.Turbo.Hot.{evicted}
use mezon_go_sdk_turbo.Turbo.Life.{
  System, closed_of, open_step, fail_step, dial_step, register_step, close_step, finish_step,
  end_step, on_close_step, prune_step, here, next, opens, fails, dials, registers, closes, finishes,
  ends, on_closes, prunes, Step, start, Reach,
}

abbrev pub is_conn : Option ℕ → ℕ → Bool
is_conn none c = false
is_conn (some d) c = d == c

-- The Conn is registered under its bot's key.
abbrev pub is_registered : System → ℕ → Bool
is_registered s c = is_conn (s.engine.hot (s.links c).owner) c

-- A registered Conn was dialed for the key, and is in no goroutine's hands. An open Conn is
-- registered, or a goroutine holds it, or it is about to be closed. A registered Conn that is open
-- is on the ping wheel; a Conn on the wheel is registered, closed, or about to be closed.
pub record IsSound (s : System) : Type 0 where
  pub owned :
      (key : String) (c : ℕ)
      → is_conn (s.engine.hot key) c ≡ true
      → (str_eq (s.links c).owner key ≡ true) × (c < s.next) × ((s.links c).held ≡ false)
  pub kept :
      (c : ℕ)
      → c < s.next
      → ((s.links c).closed || (s.links c).held || (s.links c).closing || is_registered s c) ≡ true
  pub pinged :
      (key : String) (c : ℕ)
      → is_conn (s.engine.hot key) c ≡ true
      → ((s.links c).closed || has s.engine.wheel.conns c) ≡ true
  pub wheeled :
      (c : ℕ)
      → has s.engine.wheel.conns c ≡ true
      → (c < s.next) × (((s.links c).closed || (s.links c).closing || is_registered s c) ≡ true)

opens-IsSound : (key : String) (s : System) → IsSound s → IsSound (opens key s)
unfolding opens
opens-IsSound key s h = record {
  owned = λ k c r. ground (arith, h.owned k c);
  kept = λ c l. ground (arith, h.kept c);
  pinged = λ k c r. ground (arith, h.pinged k c);
  wheeled = λ c r. ground (arith, h.wheeled c);
}

fails-IsSound : (key : String) (s : System) → IsSound s → IsSound (fails key s)
unfolding fails
fails-IsSound key s h = record {
  owned = h.owned;
  kept = h.kept;
  pinged = h.pinged;
  wheeled = h.wheeled;
}

dials-IsSound : (key : String) (s : System) → IsSound s → IsSound (dials key s)
unfolding dials
dials-IsSound key s h = record {
  owned = λ k c r. ground (arith, h.owned k c);
  kept = λ c l. ground (arith, h.kept c);
  pinged = λ k c r. ground (arith, h.pinged k c, h.owned k c);
  wheeled = λ c r. ground (arith, h.wheeled c);
}

registers-IsSound :
    (c : ℕ) (s : System)
    → c < s.next
    → (s.links c).held ≡ true
    → IsSound s
    → IsSound (registers c s)
unfolding registers
registers-IsSound c s l held h = record {
  owned = λ k d r. ground (arith, h.owned k d, eq_iff (s.links c).owner k);
  kept = λ d m. ground (arith, h.kept d, eq_iff (s.links c).owner (s.links d).owner);
  pinged = λ k d r. ground (arith, h.pinged k d, has-add c d s.engine.wheel);
  wheeled = λ d r.
      ground (
        arith,
        h.wheeled d,
        has-add c d s.engine.wheel,
        eq_iff (s.links c).owner (s.links d).owner,
      );
}

closes-IsSound : (key : String) (s : System) → IsSound s → IsSound (closes key s)
unfolding closes
closes-IsSound key s h = record {
  owned = λ k d r. ground (arith, h.owned k d);
  kept = λ d m. ground (arith, h.kept d, h.owned key d, eq_iff key (s.links d).owner);
  pinged = λ k d r. ground (arith, h.pinged k d);
  wheeled = λ d r. ground (arith, h.wheeled d, eq_iff key (s.links d).owner);
}

finishes-IsSound : (c : ℕ) (s : System) → c < s.next → IsSound s → IsSound (finishes c s)
unfolding finishes
finishes-IsSound c s l h = record {
  owned = λ k d r. ground (arith, h.owned k d);
  kept = λ d m. ground (arith, h.kept d);
  pinged = λ k d r. ground (arith, h.pinged k d, has-remove c d s.engine.wheel);
  wheeled = λ d r. ground (arith, h.wheeled d, has-remove c d s.engine.wheel);
}

ends-IsSound : (c : ℕ) (s : System) → IsSound s → IsSound (ends c s)
unfolding ends
ends-IsSound c s h = record {
  owned = λ k d r. ground (arith, h.owned k d);
  kept = λ d m. ground (arith, h.kept d);
  pinged = λ k d r. ground (arith, h.pinged k d);
  wheeled = λ d r. ground (arith, h.wheeled d);
}

-- Whether onClose removes a Conn from the wheel, by the one that is registered.
abbrev evicts : (ℕ → Bool) → Option ℕ → ℕ → Bool
evicts closed none d = false
evicts closed (some x) d = closed x && x == d

has-evicted :
    (closed : ℕ → Bool) (key : String) (o : Option ℕ) (d : ℕ) (e : Engine)
    → has (evicted closed key o e).0.wheel.conns d
      ≡ (if evicts closed o d then false else has e.wheel.conns d)
has-evicted closed key none d e = refl
has-evicted closed key (some x) d e = ground (arith, has-remove x d e.wheel)

on_closes-IsSound : (c : ℕ) (s : System) → IsSound s → IsSound (on_closes c s)
unfolding on_closes
on_closes-IsSound c s h =
    let same = λ (d : ℕ).
      has-evicted (closed_of s) (s.links c).owner (s.engine.hot (s.links c).owner) d s.engine in
    record {
      owned = λ k d r. ground (arith, h.owned k d);
      kept = λ d m. ground (arith, h.kept d, eq_iff (s.links c).owner (s.links d).owner);
      pinged = λ k d r. ground (arith, h.pinged k d, same d);
      wheeled =
          λ d r. ground (arith, h.wheeled d, same d, eq_iff (s.links c).owner (s.links d).owner);
    }

prunes-IsSound : (c : ℕ) (s : System) → (s.links c).closed ≡ true → IsSound s → IsSound (prunes c s)
unfolding prunes
prunes-IsSound c s closed h = record {
  owned = h.owned;
  kept = h.kept;
  pinged = λ k d r. ground (arith, h.pinged k d, has-remove c d s.engine.wheel);
  wheeled = λ d r. ground (arith, h.wheeled d, has-remove c d s.engine.wheel);
}

Step-IsSound : {s t : System} → Step s t → IsSound s → IsSound t
Step-IsSound {s} (open_step key) h = opens-IsSound key s h
Step-IsSound {s} (fail_step key l) h = fails-IsSound key s h
Step-IsSound {s} (dial_step key l) h = dials-IsSound key s h
Step-IsSound {s} (register_step c l held) h = registers-IsSound c s l held h
Step-IsSound {s} (close_step key) h = closes-IsSound key s h
Step-IsSound {s} (finish_step c l closing) h = finishes-IsSound c s l h
Step-IsSound {s} (end_step c l runs) h = ends-IsSound c s h
Step-IsSound {s} (on_close_step c l due) h = on_closes-IsSound c s h
Step-IsSound {s} (prune_step c l closed) h = prunes-IsSound c s closed h

start-IsSound : (interval : ℤ) → IsSound (start (new_ping_wheel interval))
unfolding start new_ping_wheel
start-IsSound interval = record {
  owned = λ k c r. ground arith;
  kept = λ c l. absurd (omega arith);
  pinged = λ k c r. ground arith;
  wheeled = λ c r. ground arith;
}

Reach-IsSound : {s t : System} → Reach s t → IsSound s → IsSound t
Reach-IsSound here h = h
Reach-IsSound (next r st) h = Step-IsSound st (Reach-IsSound r h)

-- However the goroutines interleave from a new engine on, no socket is lost.
pub Reach-start-IsSound :
    (interval : ℤ) {s : System} → Reach (start (new_ping_wheel interval)) s → IsSound s
Reach-start-IsSound interval r = Reach-IsSound r (start-IsSound interval)
