-- ===== src/Poller/Memory.antt =====
-- A Redis in memory with the sorted sets that RedisStore keeps for Seen, and the RedisStore on it:
-- it remembers an id until it has recorded DedupCap newer ones.
pub mod Laws
use mezon_go_sdk_turbo.Prelude.{
  ℕ, zero, suc, ◌+◌, ◌≤◌, ◌≡◌, refl, ap, sym, ◌∙◌, inl, inr, String, Bool, true, false, ◌||◌, List,
  [], ◌∷◌, Option, none, some, Bytes, is_empty, ascii, bytes_eq, bytes_eq_self, update, update_self,
  str_eq, arith, if◌then◌else◌, Bool-cases,
}
use mezon_go_sdk_turbo.Prelude.Int.{ℤ, pos, negsuc}
use mezon_go_sdk_turbo.Ws.Content.Units.{take}
use mezon_go_sdk_turbo.State.{Result, ok, err, Store}
use mezon_go_sdk_turbo.State.RedisStore.{
  Redis, RedisStore, Command, z_rem_range_by_rank, expire, s_add, h_set, h_incr_by, new_redis_store,
  k, seen, added, trimmed, below, redis_store, add_channel, channels, cursor, or_no_cursor,
  set_cursor, bump_activity,
}

-- The members of a sorted set, the newest one first, and how many were added to it so far.
pub record Sorted : Type 0 where
  pub members : List Bytes
  pub news : ℕ

abbrev pub Memory : Type 0
Memory = String → Sorted

abbrev pub is_member : Bytes → List Bytes → Bool
is_member x [] = false
is_member x (y ∷ ys) = bytes_eq y x || is_member x ys

abbrev pub plus_one : Bytes → Sorted → Sorted
plus_one x e = record { members = x ∷ e.members; news = suc e.news }

-- `ZREMRANGEBYRANK key 0 -n-1` keeps the newest n.
abbrev cut : ℤ → Sorted → Sorted
cut (negsuc n) e = record e { members = take n e.members }
cut (pos n) e = e

abbrev run_command : Command → Memory → Memory
run_command (z_rem_range_by_rank key lo hi) s = update s key (cut hi (s key))
run_command (expire key ttl) s = s
run_command (s_add key x) s = s
run_command (h_set key f v) s = s
run_command (h_incr_by key f n) s = s

abbrev run_commands : List Command → Memory → Memory
run_commands [] s = s
run_commands (c ∷ cs) s = run_commands cs (run_command c s)

abbrev pub add_if_new : Bool → String → Bytes → Memory → Result ℕ × Memory
add_if_new true key x s = (ok 0, s)
add_if_new false key x s = (ok 1, update s key (plus_one x (s key)))

-- Every bot has the channel 7, and no cursor is kept.
abbrev pub memory : Redis Memory
memory = record {
  z_add_nx = λ key at x s. add_if_new (is_member x (s key).members) key x s;
  s_members = λ key s. (ok (ascii "7" ∷ []), s);
  h_get = λ key f s. (ok none, s);
  exec = λ cs s. (none, run_commands cs s);
}

-- A DedupCap of 2.
abbrev pub small : RedisStore
small = new_redis_store (pos 0) (pos 2)

abbrev pub small_store : Store Memory
small_store = redis_store memory small 0

abbrev pub no_ids : Memory
no_ids key = record { members = []; news = 0 }

-- For how many newer ids a set of at most `n` ids keeps `x`.
abbrev pub room : ℕ → Bytes → List Bytes → ℕ
room n x [] = 0
room zero x (y ∷ ys) = 0
room (suc n) x (y ∷ ys) = if bytes_eq y x then suc n else room n x ys

pub room_le : (n : ℕ) (x : Bytes) (ys : List Bytes) → room n x ys ≤ n
room_le n x [] = omega arith
room_le zero x (y ∷ ys) = omega arith
room_le (suc n) x (y ∷ ys) = elim (Bool-cases (bytes_eq y x)) [
  | inl same ↦ rw same (omega arith)
  | inr other ↦ rw other (omega (arith, room_le n x ys))
]

-- One place less.
room_less : (n : ℕ) (x : Bytes) (ys : List Bytes) → room (suc n) x ys ≤ suc (room n x ys)
room_less n x [] = omega arith
room_less zero x (y ∷ ys) = elim (Bool-cases (bytes_eq y x)) [
  | inl same ↦ rw same (omega arith)
  | inr other ↦ rw other (omega (arith, room_le 0 x ys))
]
room_less (suc n) x (y ∷ ys) = elim (Bool-cases (bytes_eq y x)) [
  | inl same ↦ rw same (omega arith)
  | inr other ↦ rw other (room_less n x ys)
]

room-take : (n : ℕ) (x : Bytes) (ys : List Bytes) → room n x (take n ys) ≡ room n x ys
room-take zero x [] = refl
room-take zero x (y ∷ ys) = refl
room-take (suc n) x [] = refl
room-take (suc n) x (y ∷ ys) = ap (λ r. if bytes_eq y x then suc n else r) (room-take n x ys)

room_absent : (n : ℕ) (x : Bytes) (ys : List Bytes) → is_member x ys ≡ false → room n x ys ≡ 0
room_absent n x [] h = refl
room_absent zero x (y ∷ ys) h = refl
room_absent (suc n) x (y ∷ ys) h = elim (Bool-cases (bytes_eq y x)) [
  | inl same ↦ absurd (ground (arith, same, h))
  | inr other ↦ rw other (room_absent n x ys (ground (arith, other, h)))
]

-- How many ids a set will have recorded when it may forget `x`.
abbrev pub due : Bytes → Sorted → ℕ
due x e = e.news + room 2 x e.members

abbrev pub recorded : String → Memory → ℕ
recorded key s = (s (k key "dedup")).news

abbrev pub until : String → Bytes → Memory → ℕ
until key x s = due x (s (k key "dedup"))

-- After an id is added and the set is trimmed.
abbrev pub grown : Bytes → Sorted → Sorted
grown x e = record { members = take 2 (x ∷ e.members); news = suc e.news }

pub due_grows : (x y : Bytes) (e : Sorted) → due y e ≤ due y (grown x e)
due_grows x y e =
    let kept = room-take 2 y (x ∷ e.members) in
    elim (Bool-cases (bytes_eq x y)) [
      | inl same ↦
          let top : room 2 y (x ∷ e.members) ≡ 2 = rw same refl in
          omega (arith, kept, top, room_le 2 y e.members)
      | inr other ↦
          let below_top : room 2 y (x ∷ e.members) ≡ room 1 y e.members = rw other refl in
          omega (arith, kept, below_top, room_less 1 y e.members)
    ]

pub due_new :
    (x : Bytes) (e : Sorted) → is_member x e.members ≡ false → due x e + 2 ≤ due x (grown x e)
due_new x e absent =
    let top : room 2 x (x ∷ e.members) ≡ 2 = rw (bytes_eq_self x) refl in
    omega (arith, room-take 2 x (x ∷ e.members), top, room_absent 2 x e.members absent)
