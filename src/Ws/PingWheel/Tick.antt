-- ===== src/Ws/PingWheel/Tick.antt =====
-- lib/ws/pingwheel.go: what a tick pings and what it prunes.
use mezon_go_sdk_turbo.Prelude.{
  ℕ, ◌==◌, ◌≡◌, refl, inl, inr, Bool, true, false, ◌&&◌, List, [], ◌∷◌, Perm, arith, count_if,
  count_if-perm, if◌then◌else◌, Bool-cases,
}
use mezon_go_sdk_turbo.Ws.PingWheel.{PingWheel, has, without, add, remove, ping_all, tick}

abbrev pub times : ℕ → List ℕ → ℕ
times c ds = count_if (λ d. d == c) ds

times-without :
    (c x : ℕ) (ds : List ℕ) → times x (without ds c) ≡ (if c == x then 0 else times x ds)
times-without c x [] = ground arith
times-without c x (d ∷ ds) = ground (arith, times-without c x ds)

times-remove :
    (c x : ℕ) (w : PingWheel) → times x (remove c w).conns ≡ (if c == x then 0 else times x w.conns)
unfolding remove
times-remove c x w = times-without c x w.conns

ping_all_closed :
    (closed : ℕ → Bool) (c : ℕ) (cs : List ℕ) (w : PingWheel)
    → closed c ≡ true
    → ping_all closed (c ∷ cs) w ≡ ping_all closed cs (remove c w)
unfolding ping_all
ping_all_closed closed c cs w h = rw (ping_all, h) refl

ping_all_open :
    (closed : ℕ → Bool) (c : ℕ) (cs : List ℕ) (w : PingWheel)
    → closed c ≡ false
    → ping_all closed (c ∷ cs) w ≡ ((ping_all closed cs w).0, c ∷ (ping_all closed cs w).1)
unfolding ping_all
ping_all_open closed c cs w h = rw (ping_all, h) refl

-- A closed connection stays closed under an equal name.
same_closed :
    (closed : ℕ → Bool) (c x : ℕ) (b : Bool) → closed c ≡ b → (c == x) ≡ true → closed x ≡ b
same_closed closed c x b h e = let same : c ≡ x = ground (arith, e) in rw (← same) h

-- What is left of a connection after a loop, and how often it is pinged.
ping_all-times :
    (closed : ℕ → Bool) (cs : List ℕ) (w : PingWheel) (x : ℕ)
    → (times x (ping_all closed cs w).0.conns
        ≡ (if closed x && has cs x then 0 else times x w.conns))
      × (times x (ping_all closed cs w).1 ≡ (if closed x then 0 else times x cs))
ping_all-times closed [] w x = unfold ping_all in ground arith
ping_all-times closed (c ∷ cs) w x = elim (Bool-cases (closed c)) [
  | inl shut ↦
      let next = ping_all-times closed cs (remove c w) x in
      let gone = times-remove c x w in
      let same = same_closed closed c x true shut in
      rw (ping_all_closed closed c cs w shut) (ground (arith, next.0, next.1, gone, same))
  | inr live ↦
      let next = ping_all-times closed cs w x in
      let same = same_closed closed c x false live in
      rw (ping_all_open closed c cs w live) (ground (arith, next.0, next.1, same))
]

has-times : (cs : List ℕ) (x : ℕ) → (if has cs x then 0 else times x cs) ≡ 0
has-times [] x = refl
has-times (c ∷ cs) x = ground (arith, has-times cs x)

-- A tick, in whatever order it visits the map once, prunes every closed connection and no other,
-- and pings every other one as often as the map holds it.
pub tick_prunes :
    (closed : ℕ → Bool) (order : List ℕ → List ℕ) (w : PingWheel) (x : ℕ)
    → Perm (order w.conns) w.conns
    → (times x (tick closed order w).0.conns ≡ (if closed x then 0 else times x w.conns))
      × (times x (tick closed order w).1 ≡ (if closed x then 0 else times x w.conns))
unfolding tick
tick_prunes closed order w x perm =
    let all_of = ping_all-times closed (order w.conns) w x in
    let same = count_if-perm (λ d. d == x) perm in
    let held = has-times (order w.conns) x in ground (arith, all_of.0, all_of.1, same, held)

has-without : (c d : ℕ) (ds : List ℕ) → has (without ds c) d ≡ (if c == d then false else has ds d)
has-without c d [] = ground arith
has-without c d (x ∷ ds) = ground (arith, has-without c d ds)

pub has-remove :
    (c d : ℕ) (w : PingWheel) → has (remove c w).conns d ≡ (if c == d then false else has w.conns d)
unfolding remove
has-remove c d w = has-without c d w.conns

pub has-add :
    (c d : ℕ) (w : PingWheel) → has (add c w).conns d ≡ (if c == d then true else has w.conns d)
unfolding add
has-add c d w = ground arith
