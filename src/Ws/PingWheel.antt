-- ===== src/Ws/PingWheel.antt =====
-- lib/ws/pingwheel.go: the wheel. A connection is the address of its Conn, and the map `conns` the
-- list of its keys. A method holds the lock while it changes the map; a tick takes it again for
-- each connection that it removes, and what Closed answers is given.
pub mod Tick
use mezon_go_sdk_turbo.Prelude.{
  ℕ, ◌*◌, ◌==◌, ◌||◌, Bool, true, false, List, [], ◌∷◌, length, if◌then◌else◌,
}
use mezon_go_sdk_turbo.Prelude.Int.{ℤ}
use mezon_go_sdk_turbo.Tier.Config.{second, or_default}

pub record PingWheel : Type 0 where
  pub interval : ℤ
  pub conns : List ℕ

unfoldable pub new_ping_wheel : ℤ → PingWheel
new_ping_wheel interval = record { interval = or_default interval (10 * second); conns = [] }

abbrev pub has : List ℕ → ℕ → Bool
has [] c = false
has (d ∷ ds) c = d == c || has ds c

abbrev without : List ℕ → ℕ → List ℕ
without [] c = []
without (d ∷ ds) c = let rest = without ds c in if d == c then rest else d ∷ rest

unfoldable pub add : ℕ → PingWheel → PingWheel
add c w = record w { conns = if has w.conns c then w.conns else c ∷ w.conns }

unfoldable pub remove : ℕ → PingWheel → PingWheel
remove c w = record w { conns = without w.conns c }

unfoldable pub len : PingWheel → ℕ
len w = length w.conns

-- The loop of a tick over the snapshot: the wheel, and the connections that are pinged.
unfoldable pub ping_all : (ℕ → Bool) → List ℕ → PingWheel → PingWheel × List ℕ
unfolding remove
ping_all closed [] w = (w, [])
ping_all closed (c ∷ cs) w = elim (closed c) [
  | true ↦ ping_all closed cs (remove c w)
  | false ↦ let kept = ping_all closed cs w in (kept.0, c ∷ kept.1)
]

-- A tick of Run, whose snapshot is the map in the order of its range.
unfoldable pub tick : (ℕ → Bool) → (List ℕ → List ℕ) → PingWheel → PingWheel × List ℕ
unfolding ping_all
tick closed order w = ping_all closed (order w.conns) w
