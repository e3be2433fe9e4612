-- ===== src/Turbo/Life.antt =====
-- lib/turbo/turbo.go and lib/ws/conn.go: the sockets of an engine over time. The goroutines of
-- OpenHot, the read loops, CloseHot and the ping wheel interleave in any order, one critical
-- section a step; dropSession, one of its own, belongs to the step that calls it.
pub mod Safety
pub mod Opening
pub mod Deaf
pub mod Lost
use mezon_go_sdk_turbo.Prelude.{
  ℕ, suc, ◌+◌, ◌-◌, ◌<◌, ◌==◌, ◌≡◌, String, Bool, true, false, not, ◌&&◌, List, Option, none, some,
  update, str_eq, if◌then◌else◌,
}
use mezon_go_sdk_turbo.Ws.PingWheel.{PingWheel, has}
use mezon_go_sdk_turbo.Turbo.{Engine, new_engine}
use mezon_go_sdk_turbo.Turbo.Hot.{
  After, nothing, spawn, demote, close, rearm, open_hot, dial_failed, register, on_close, close_hot,
  unwheel,
}

-- The read loop of a Conn: it runs; it has ended and stored `closed`, and its onClose is due; it is
-- over.
pub data Loop : Type 0 where
  running ended over : Loop

-- A Conn that was dialed for a bot. `held`: the goroutine of OpenHot has it and has not registered
-- it. `closing`: a CloseHot, or that goroutine, is about to close it.
pub record Link : Type 0 where
  pub owner : String
  pub closed : Bool
  pub held : Bool
  pub closing : Bool
  pub loop : Loop

-- `dialing` counts the goroutines of a key that have not dialed yet; the links from `next` on are
-- not in use.
pub record System : Type 0 where
  pub engine : Engine
  pub dialing : String → ℕ
  pub links : ℕ → Link
  pub next : ℕ

abbrev pub link_at : (ℕ → Link) → ℕ → Link → ℕ → Link
link_at links c l d = if c == d then l else links d

abbrev pub closed_of : System → ℕ → Bool
closed_of s c = (s.links c).closed

abbrev spawned : System → String → Engine × After → System
spawned s key (e, spawn) = record s {
  engine = e;
  dialing = λ k. if str_eq key k then suc (s.dialing k) else s.dialing k;
}
spawned s key (e, nothing) = record s { engine = e }
spawned s key (e, demote) = record s { engine = e }
spawned s key (e, close c) = record s { engine = e }
spawned s key (e, rearm) = record s { engine = e }

-- A call of OpenHot.
unfoldable pub opens : String → System → System
unfolding open_hot
opens key s = spawned s key (open_hot (closed_of s) key s.engine)

abbrev one_less : String → System → String → ℕ
one_less key s k = if str_eq key k then s.dialing k - 1 else s.dialing k

-- A goroutine dials: it fails, or it has a Conn whose read loop runs.
unfoldable pub fails : String → System → System
unfolding dial_failed
fails key s = record s { engine = (dial_failed key s.engine).0; dialing = one_less key s }

unfoldable pub dials : String → System → System
dials key s = record s {
  dialing = one_less key s;
  links =
      link_at s.links s.next
        (record { owner = key; closed = false; held = true; closing = false; loop = running });
  next = suc s.next;
}

abbrev is_close : After → Bool
is_close nothing = false
is_close spawn = false
is_close demote = false
is_close (close c) = true
is_close rearm = false

-- A goroutine registers its Conn, or is about to close it.
unfoldable pub registers : ℕ → System → System
unfolding register
registers c s =
    let l = s.links c in
    let r = register (closed_of s) l.owner c s.engine in
    record s {
      engine = r.0;
      links = link_at s.links c (record l { held = false; closing = is_close r.1 });
    }

abbrev closing_of : System → After → ℕ → Link
closing_of s nothing = s.links
closing_of s spawn = s.links
closing_of s demote = s.links
closing_of s (close c) = link_at s.links c (record (s.links c) { closing = true })
closing_of s rearm = s.links

-- CloseHot up to its unlock.
unfoldable pub closes : String → System → System
unfolding close_hot
closes key s = let r = close_hot key s.engine in record s { engine = r.0; links = closing_of s r.1 }

-- What follows: the Conn leaves the wheel, where the goroutine's was never added, and is closed.
unfoldable pub finishes : ℕ → System → System
unfolding unwheel
finishes c s = record s {
  engine = unwheel c s.engine;
  links = link_at s.links c (record (s.links c) { closed = true; closing = false });
}

-- The read loop ends, whatever the reason, and later calls onClose.
unfoldable pub ends : ℕ → System → System
ends c s = record s {
  links = link_at s.links c (record (s.links c) { closed = true; loop = ended });
}

unfoldable pub on_closes : ℕ → System → System
unfolding on_close
on_closes c s =
    let l = s.links c in
    record s {
      engine = (on_close (closed_of s) l.owner s.engine).0;
      links = link_at s.links c (record l { loop = over });
    }

-- A tick of the ping wheel removes a Conn that is closed.
unfoldable pub prunes : ℕ → System → System
unfolding unwheel
prunes c s = record s { engine = unwheel c s.engine }

pub data Step (s : System) : System → Type 0 where
  open_step : (key : String) → Step s (opens key s)
  fail_step : (key : String) → 0 < s.dialing key → Step s (fails key s)
  dial_step : (key : String) → 0 < s.dialing key → Step s (dials key s)
  register_step : (c : ℕ) → c < s.next → (s.links c).held ≡ true → Step s (registers c s)
  close_step : (key : String) → Step s (closes key s)
  finish_step : (c : ℕ) → c < s.next → (s.links c).closing ≡ true → Step s (finishes c s)
  end_step : (c : ℕ) → c < s.next → (s.links c).loop ≡ running → Step s (ends c s)
  on_close_step : (c : ℕ) → c < s.next → (s.links c).loop ≡ ended → Step s (on_closes c s)
  prune_step : (c : ℕ) → c < s.next → (s.links c).closed ≡ true → Step s (prunes c s)

abbrev pub no_link : Link
no_link = record { owner = ""; closed = true; held = false; closing = false; loop = over }

-- An engine that New has built, over an empty wheel.
unfoldable pub start : PingWheel → System
unfolding new_engine
start w = record { engine = new_engine w; dialing = λ k. 0; links = λ c. no_link; next = 0 }

pub data Reach (s : System) : System → Type 0 where
  here : Reach s s
  next : {t u : System} → Reach s t → Step t u → Reach s u
