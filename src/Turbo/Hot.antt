-- ===== src/Turbo/Hot.antt =====
-- lib/turbo/turbo.go: OpenHot with its goroutine, onClose and CloseHot. `closed` is what Closed
-- answers of each connection.
use mezon_go_sdk_turbo.Prelude.{
  ℕ, String, Bool, true, false, Option, none, some, update, if◌then◌else◌,
}
use mezon_go_sdk_turbo.Ws.PingWheel.{add, remove}
use mezon_go_sdk_turbo.Turbo.{Engine}

-- `c != nil && !c.Closed()`, and `c != nil && c.Closed()`.
abbrev pub is_live : (ℕ → Bool) → Option ℕ → Bool
is_live closed none = false
is_live closed (some c) = if closed c then false else true

-- What is called after an unlock: on the manager ForceTier with Warm, and Touch; on a connection
-- Close; and the goroutine that dials.
pub data After : Type 0 where
  nothing : After
  spawn : After
  demote : After
  close : ℕ → After
  rearm : After

-- `dropSession`
unfoldable pub drop_session : String → Engine → Engine
drop_session key e = record e { sessions = update e.sessions key none }

-- The first critical section of OpenHot.
unfoldable pub open_hot : (ℕ → Bool) → String → Engine → Engine × After
open_hot closed key e =
    if is_live closed (e.hot key)
    then (e, nothing)
    else if e.opening key
    then (e, nothing)
    else (record e { opening = update e.opening key true }, spawn)

-- The goroutine after a dial that failed.
unfoldable pub dial_failed : String → Engine → Engine × After
unfolding drop_session
dial_failed key e =
    let e' = drop_session key e in (record e' { opening = update e'.opening key false }, demote)

-- The last critical section of the goroutine, on the connection that it has dialed.
unfoldable pub register : (ℕ → Bool) → String → ℕ → Engine → Engine × After
unfolding add
register closed key c e =
    if e.opening key
    then (let e' = record e { opening = update e.opening key false } in
        if is_live closed (e.hot key)
        then (e', close c)
        else (record e' { hot = update e.hot key (some c); wheel = add c e.wheel }, nothing))
    else (e, close c)

-- The critical section of onClose and the calls after it.
abbrev pub evicted : (ℕ → Bool) → String → Option ℕ → Engine → Engine × After
evicted closed key none e = (e, nothing)
evicted closed key (some c) e =
    if closed c
    then (
      record e {
        hot = update e.hot key none;
        wheel = remove c e.wheel;
        sessions = update e.sessions key none;
      },
      rearm,
    )
    else (e, nothing)

unfoldable pub on_close : (ℕ → Bool) → String → Engine → Engine × After
unfolding remove
on_close closed key e = evicted closed key (e.hot key) e

-- The critical section of CloseHot, and what follows it on a connection: the wheel and Close.
abbrev pub after_close : Option ℕ → After
after_close none = nothing
after_close (some c) = close c

unfoldable pub close_hot : String → Engine → Engine × After
close_hot key e = (
  record e { hot = update e.hot key none; opening = update e.opening key false },
  after_close (e.hot key),
)

unfoldable pub unwheel : ℕ → Engine → Engine
unfolding remove
unwheel c e = record e { wheel = remove c e.wheel }
