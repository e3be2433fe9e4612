-- ===== src/State/Tests.antt =====
-- Runs of the store on a server in memory, whose next pipelines may fail.
use mezon_go_sdk_turbo.Prelude.{
  ℕ, zero, suc, ◌≡◌, refl, ap, sym, ◌∙◌, String, Bool, true, false, ◌||◌, ◌&&◌, List, [], ◌∷◌,
  Option, none, some, Bytes, bytes_eq, ascii, str_eq, str_eq_self, one_if, if◌then◌else◌,
}
use mezon_go_sdk_turbo.Prelude.Int.{ℤ, pos}
use mezon_go_sdk_turbo.Types.{warm}
use mezon_go_sdk_turbo.State.{Result, ok, err}
use mezon_go_sdk_turbo.State.RedisStore.{
  Redis, RedisStore, Command, z_rem_range_by_rank, expire, s_add, h_set, h_incr_by, new_redis_store,
  k, seen, cursor, set_cursor, tier, set_tier,
}
use mezon_go_sdk_turbo.State.Answers.{
  IsRedis, OrError, cursor_of_value, tier-set_tier, cursor-set_cursor, seen-member,
}

-- The hashes and sorted sets, and how many pipelines will fail.
record Server : Type 0 where
  hash : String → Bytes → Option Bytes
  member : String → Bytes → Bool
  down : ℕ

abbrev run_command : Command → Server → Server
run_command (z_rem_range_by_rank key lo hi) s = s
run_command (expire key ttl) s = s
run_command (s_add key x) s = s
run_command (h_set key f v) s = record s {
  hash = λ j g. if str_eq j key && bytes_eq g f then some v else s.hash j g;
}
run_command (h_incr_by key f n) s = s

abbrev run_commands : List Command → Server → Server
run_commands [] s = s
run_commands (c ∷ cs) s = run_commands cs (run_command c s)

abbrev exec_at : ℕ → List Command → Server → Option String × Server
exec_at zero cs s = (none, run_commands cs s)
exec_at (suc n) cs s = (some "i/o timeout", record s { down = n })

abbrev add_at : Bool → String → Bytes → Server → Result ℕ × Server
add_at true key x s = (ok 0, s)
add_at false key x s =
    (ok 1, record s { member = λ j y. (str_eq j key && bytes_eq y x) || s.member j y })

abbrev server : Redis Server
server = record {
  z_add_nx = λ key at x s. add_at (s.member key x) key x s;
  s_members = λ key s. (ok [], s);
  h_get = λ key f s. (ok (s.hash key f), s);
  exec = λ cs s. exec_at s.down cs s;
}

abbrev empty : ℕ → Server
empty down = record { hash = λ key f. none; member = λ key x. false; down = down }

abbrev store : RedisStore
store = new_redis_store (pos 0) (pos 0)

-- A pipeline that fails after ZAddNX: the first Seen of the id is an error, and the next answers
-- that it was seen, so PollOnce never emits the message.
lost_id :
    ((seen server store 0 "a" (ascii "31") (empty 1)).0 ≡ err "i/o timeout")
    × ((seen server store 1 "a" (ascii "31") (seen server store 0 "a" (ascii "31") (empty 1)).1).0
        ≡ ok true)
unfolding seen ascii k
lost_id = (refl, refl)

value_or : Option Bytes → Result (Option Bytes) → Option Bytes
value_or d (ok v) = v
value_or d (err e) = d

server_get :
    (key : String) (f : Bytes) (s t : Server) (v : Option Bytes)
    → server.h_get key f s ≡ (ok v, t)
    → v ≡ s.hash key f
unfolding value_or
server_get key f s t v h = sym (ap (λ o. value_or none o.0) h)

exec_sets :
    (down : ℕ) (key : String) (f g v : Bytes) (ttl : ℤ) (s t : Server)
    → exec_at down (h_set key f v ∷ expire key ttl ∷ []) s ≡ (none, t)
    → t.hash key g ≡ (if bytes_eq g f then some v else s.hash key g)
exec_sets zero key f g v ttl s t h =
    let same : run_commands (h_set key f v ∷ expire key ttl ∷ []) s ≡ t = ap (λ o. o.1) h in
    ap (λ u. u.hash key g) (sym same)
    ∙ ap (λ b. if b && bytes_eq g f then some v else s.hash key g) (str_eq_self key)
exec_sets (suc n) key f g v ttl s t h = cc

count_of : Result ℕ → ℕ
count_of (ok n) = n
count_of (err e) = 0

added_count :
    (held : Bool) (key : String) (x : Bytes) (n : ℕ) (s t : Server)
    → add_at held key x s ≡ (ok n, t)
    → n ≡ one_if (if held then false else true)
unfolding count_of
added_count true key x n s t h = sym (ap (λ o. count_of o.0) h)
added_count false key x n s t h = sym (ap (λ o. count_of o.0) h)

server-IsRedis : IsRedis server (λ key f s. s.hash key f) (λ key x s. s.member key x)
server-IsRedis = record {
  get = server_get;
  set = λ key f g v ttl s t l h. exec_sets s.down key f g v ttl s t h;
  add = λ key at n x s t h. added_count (s.member key x) key x n s t h;
}

tier-set_tier_example :
    OrError warm (tier server store "a" (set_tier server store "a" warm (empty 0)).1).0
unfolding set_tier
tier-set_tier_example =
    tier-set_tier server (λ key f s. s.hash key f) (λ key x s. s.member key x) server-IsRedis
      (pos 0) (pos 0) "a" warm (empty 0) refl

cursor-set_cursor_example :
    OrError
      (if bytes_eq (ascii "7") (ascii "7")
        then ascii "33"
        else cursor_of_value ((empty 0).hash (k "a" "cur") (ascii "7")))
      (cursor server store "a"
        (ascii "7")
        (set_cursor server store "a" (ascii "7") (ascii "33") (empty 0)).1).0
unfolding set_cursor
cursor-set_cursor_example =
    cursor-set_cursor server (λ key f s. s.hash key f) (λ key x s. s.member key x) server-IsRedis
      (pos 0) (pos 0) "a" (ascii "7") (ascii "33") (ascii "7") (empty 0) refl

seen-member_example :
    OrError
      ((empty 0).member (k "a" "dedup") (ascii "31"))
      (seen server store 0 "a" (ascii "31") (empty 0)).0
unfolding ascii
seen-member_example =
    seen-member server (λ key f s. s.hash key f) (λ key x s. s.member key x) server-IsRedis (pos 0)
      (pos 0) 0 "a" (ascii "31") (empty 0) refl
