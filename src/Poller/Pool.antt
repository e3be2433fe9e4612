-- ===== src/Poller/Pool.antt =====
-- lib/poller/poller.go: the defaults of New, and Submit with its goroutine. `sem` is a channel of
-- `workers` places; a poll that is submitted has a number, in the order of the calls of Submit.
use mezon_go_sdk_turbo.Prelude.{
  ℕ, suc, ◌==◌, Bool, false, ◌&&◌, ◌||◌, List, [], ◌∷◌, ltb, length, if◌then◌else◌,
}
use mezon_go_sdk_turbo.Prelude.Int.{ℤ}
use mezon_go_sdk_turbo.Tier.Config.{or_default}

-- The numbers of New: calls a second, workers, and messages of a page.
pub record Limits : Type 0 where
  pub rps : ℤ
  pub workers : ℤ
  pub page_limit : ℤ

unfoldable pub new_limits : ℤ → ℤ → ℤ → Limits
new_limits rps workers page_limit = record {
  rps = or_default rps 50;
  workers = or_default workers 8;
  page_limit = or_default page_limit 20;
}

-- The calls of Submit that wait in their select, those whose goroutine holds a place of `sem`, those
-- whose goroutine has ended, and those that returned because their context was done.
pub record Pool : Type 0 where
  pub workers : ℕ
  pub next : ℕ
  pub waiting : List ℕ
  pub running : List ℕ
  pub ended : List ℕ
  pub dropped : List ℕ

unfoldable pub new_pool : ℕ → Pool
new_pool workers = record {
  workers = workers;
  next = 0;
  waiting = [];
  running = [];
  ended = [];
  dropped = [];
}

abbrev pub is_in : ℕ → List ℕ → Bool
is_in j [] = false
is_in j (k ∷ ks) = k == j || is_in j ks

unfoldable pub take_out : ℕ → List ℕ → List ℕ
take_out j [] = []
take_out j (k ∷ ks) = let rest = take_out j ks in if k == j then ks else k ∷ rest

-- A call of Submit, before its select.
unfoldable pub submits : Pool → Pool
submits p = record p { next = suc p.next; waiting = p.next ∷ p.waiting }

-- `case p.sem <- struct{}{}:` of a call, where there is a place.
unfoldable pub starts : ℕ → Pool → Pool
unfolding take_out
starts j p =
    if is_in j p.waiting && ltb (length p.running) p.workers
    then record p { waiting = take_out j p.waiting; running = j ∷ p.running }
    else p

-- `case <-ctx.Done():` of a call.
unfoldable pub drops : ℕ → Pool → Pool
unfolding take_out
drops j p =
    if is_in j p.waiting
    then record p { waiting = take_out j p.waiting; dropped = j ∷ p.dropped }
    else p

-- The end of a goroutine, which gives its place back.
unfoldable pub ends : ℕ → Pool → Pool
unfolding take_out
ends j p =
    if is_in j p.running
    then record p { running = take_out j p.running; ended = j ∷ p.ended }
    else p

pub data PoolStep : Type 0 where
  submit_step : PoolStep
  start_step drop_step end_step : ℕ → PoolStep

unfoldable pub pool_step : PoolStep → Pool → Pool
unfolding submits starts drops ends
pool_step submit_step p = submits p
pool_step (start_step j) p = starts j p
pool_step (drop_step j) p = drops j p
pool_step (end_step j) p = ends j p

unfoldable pub pool_steps : List PoolStep → Pool → Pool
unfolding pool_step
pool_steps [] p = p
pool_steps (a ∷ more) p = pool_steps more (pool_step a p)
