-- ===== src/Turbo/Life/Deaf.antt =====
-- lib/turbo/turbo.go: a Conn that OpenHot registers, without asking whether it is closed, after its
-- read loop has ended and called onClose.
use mezon_go_sdk_turbo.Prelude.{ℕ, ◌<◌, ◌≡◌, String, Bool, true, false, str_eq, eq_iff, arith}
use mezon_go_sdk_turbo.Turbo.Life.{
  Loop, running, ended, over, System, Step, open_step, fail_step, dial_step, register_step,
  close_step, finish_step, end_step, on_close_step, prune_step, opens, fails, dials, registers,
  closes, finishes, ends, on_closes, prunes,
}
use mezon_go_sdk_turbo.Turbo.Life.Safety.{is_conn}

abbrev pub is_over : Loop → Bool
is_over running = false
is_over ended = false
is_over over = true

-- No goroutine and no read loop is at work for the key.
pub record IsQuiet (key : String) (s : System) : Type 0 where
  pub unopened : s.engine.opening key ≡ false
  pub undialed : s.dialing key ≡ 0
  pub silent :
      (c : ℕ) → c < s.next → str_eq (s.links c).owner key ≡ true → is_over (s.links c).loop ≡ true

-- The key has a Conn that is closed, and nobody is left who would notice.
pub record IsDeaf (key : String) (c : ℕ) (s : System) : Type 0 where
  pub registered : is_conn (s.engine.hot key) c ≡ true
  pub closed : (s.links c).closed ≡ true
  pub taken : (c < s.next) × ((s.links c).held ≡ false)
  pub quiet : IsQuiet key s

-- A step that is no call of OpenHot or CloseHot for the key.
abbrev pub Spares : String → {s t : System} → Step s t → Type 0
Spares key (open_step k) = str_eq k key ≡ false
Spares key (fail_step k l) = Unit {0}
Spares key (dial_step k l) = Unit {0}
Spares key (register_step c l held) = Unit {0}
Spares key (close_step k) = str_eq k key ≡ false
Spares key (finish_step c l closing) = Unit {0}
Spares key (end_step c l runs) = Unit {0}
Spares key (on_close_step c l due) = Unit {0}
Spares key (prune_step c l closed) = Unit {0}

pub data Later (key : String) (s : System) : System → Type 0 where
  now : Later key s s
  then_step : {t u : System} → Later key s t → (st : Step t u) → Spares key st → Later key s u

opens-IsDeaf :
    (key k : String) (c : ℕ) (s : System)
    → str_eq k key ≡ false
    → IsDeaf key c s
    → IsDeaf key c (opens k s)
unfolding opens
opens-IsDeaf key k c s o h = record {
  registered = ground (arith, h.registered);
  closed = ground (arith, h.closed);
  taken = ground (arith, h.taken);
  quiet = record {
    unopened = ground (arith, h.quiet.unopened);
    undialed = ground (arith, h.quiet.undialed);
    silent = λ d l own. ground (arith, h.quiet.silent d);
  };
}

fails-IsDeaf :
    (key : String) (k : String) (c : ℕ) (s : System) → IsDeaf key c s → IsDeaf key c (fails k s)
unfolding fails
fails-IsDeaf key k c s h = record {
  registered = ground (arith, h.registered);
  closed = ground (arith, h.closed);
  taken = ground (arith, h.taken);
  quiet = record {
    unopened = ground (arith, h.quiet.unopened);
    undialed = ground (arith, h.quiet.undialed);
    silent = λ e l own. ground (arith, h.quiet.silent e);
  };
}

dials-IsDeaf :
    (key : String) (k : String) (c : ℕ) (s : System)
    → 0 < s.dialing k
    → IsDeaf key c s
    → IsDeaf key c (dials k s)
unfolding dials
dials-IsDeaf key k c s o h = record {
  registered = ground (arith, h.registered);
  closed = ground (arith, h.closed);
  taken = ground (arith, h.taken);
  quiet = record {
    unopened = ground (arith, h.quiet.unopened);
    undialed = ground (arith, h.quiet.undialed);
    silent = λ e l own. ground (arith, h.quiet.silent e, h.quiet.undialed, eq_iff k key);
  };
}

registers-IsDeaf :
    (key : String) (d : ℕ) (c : ℕ) (s : System)
    → (s.links d).held ≡ true
    → IsDeaf key c s
    → IsDeaf key c (registers d s)
unfolding registers
registers-IsDeaf key d c s o h = record {
  registered = ground (arith, h.registered, h.quiet.unopened, eq_iff (s.links d).owner key);
  closed = ground (arith, h.closed);
  taken = ground (arith, h.taken);
  quiet = record {
    unopened = ground (arith, h.quiet.unopened);
    undialed = ground (arith, h.quiet.undialed);
    silent = λ e l own. ground (arith, h.quiet.silent e);
  };
}

closes-IsDeaf :
    (key : String) (k : String) (c : ℕ) (s : System)
    → str_eq k key ≡ false
    → IsDeaf key c s
    → IsDeaf key c (closes k s)
unfolding closes
closes-IsDeaf key k c s o h = record {
  registered = ground (arith, h.registered);
  closed = ground (arith, h.closed);
  taken = ground (arith, h.taken);
  quiet = record {
    unopened = ground (arith, h.quiet.unopened);
    undialed = ground (arith, h.quiet.undialed);
    silent = λ e l own. ground (arith, h.quiet.silent e);
  };
}

finishes-IsDeaf :
    (key : String) (d : ℕ) (c : ℕ) (s : System) → IsDeaf key c s → IsDeaf key c (finishes d s)
unfolding finishes
finishes-IsDeaf key d c s h = record {
  registered = ground (arith, h.registered);
  closed = ground (arith, h.closed);
  taken = ground (arith, h.taken);
  quiet = record {
    unopened = ground (arith, h.quiet.unopened);
    undialed = ground (arith, h.quiet.undialed);
    silent = λ e l own. ground (arith, h.quiet.silent e);
  };
}

ends-IsDeaf :
    (key : String) (d : ℕ) (c : ℕ) (s : System)
    → d < s.next
    → (s.links d).loop ≡ running
    → IsDeaf key c s
    → IsDeaf key c (ends d s)
unfolding ends
ends-IsDeaf key d c s o r h = record {
  registered = ground (arith, h.registered);
  closed = ground (arith, h.closed);
  taken = ground (arith, h.taken);
  quiet = record {
    unopened = ground (arith, h.quiet.unopened);
    undialed = ground (arith, h.quiet.undialed);
    silent = λ e l own. ground (arith, h.quiet.silent e);
  };
}

on_closes-IsDeaf :
    (key : String) (d : ℕ) (c : ℕ) (s : System)
    → d < s.next
    → (s.links d).loop ≡ ended
    → IsDeaf key c s
    → IsDeaf key c (on_closes d s)
unfolding on_closes
on_closes-IsDeaf key d c s o r h = record {
  registered = ground (arith, h.registered, h.quiet.silent d, eq_iff (s.links d).owner key);
  closed = ground (arith, h.closed);
  taken = ground (arith, h.taken);
  quiet = record {
    unopened = ground (arith, h.quiet.unopened);
    undialed = ground (arith, h.quiet.undialed);
    silent = λ e l own. ground (arith, h.quiet.silent e);
  };
}

Step-IsDeaf :
    (key : String) (c : ℕ) {s t : System} (st : Step s t)
    → Spares key st
    → IsDeaf key c s
    → IsDeaf key c t
Step-IsDeaf key c {s} (open_step k) o h = opens-IsDeaf key k c s o h
Step-IsDeaf key c {s} (fail_step k l) o h = fails-IsDeaf key k c s h
Step-IsDeaf key c {s} (dial_step k l) o h = dials-IsDeaf key k c s l h
Step-IsDeaf key c {s} (register_step d l held) o h = registers-IsDeaf key d c s held h
Step-IsDeaf key c {s} (close_step k) o h = closes-IsDeaf key k c s o h
Step-IsDeaf key c {s} (finish_step d l closing) o h = finishes-IsDeaf key d c s h
Step-IsDeaf key c {s} (end_step d l runs) o h = ends-IsDeaf key d c s l runs h
Step-IsDeaf key c {s} (on_close_step d l due) o h = on_closes-IsDeaf key d c s l due h
Step-IsDeaf key c {s} (prune_step d l closed) o h =
    unfold prunes in
    record {
      registered = h.registered;
      closed = h.closed;
      taken = h.taken;
      quiet = record {
        unopened = h.quiet.unopened;
        undialed = h.quiet.undialed;
        silent = h.quiet.silent;
      };
    }

pub Later-IsDeaf :
    (key : String) (c : ℕ) {s t : System} → Later key s t → IsDeaf key c s → IsDeaf key c t
Later-IsDeaf key c now h = h
Later-IsDeaf key c (then_step l st spares) h = Step-IsDeaf key c st spares (Later-IsDeaf key c l h)
