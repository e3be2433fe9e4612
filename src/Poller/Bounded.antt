-- ===== src/Poller/Bounded.antt =====
-- lib/poller/poller.go: how many polls run at once, and where each is.
use mezon_go_sdk_turbo.Prelude.{
  ℕ, suc, ◌+◌, ◌≤◌, ◌≡◌, ◌==◌, refl, inl, inr, Bool, true, false, ◌&&◌, List, [], ◌∷◌, ltb, length,
  one_if, count_if, arith, Bool-cases, if◌then◌else◌,
}
use mezon_go_sdk_turbo.Poller.Pool.{
  Pool, PoolStep, submit_step, start_step, drop_step, end_step, new_pool, is_in, take_out, submits,
  starts, drops, ends, pool_step, pool_steps,
}

times : ℕ → List ℕ → ℕ
times j ks = count_if (λ k. k == j) ks

times-take_out :
    (j k : ℕ) (ks : List ℕ)
    → is_in j ks ≡ true
    → times k (take_out j ks) + one_if (j == k) ≡ times k ks
unfolding times take_out
times-take_out j k [] h = absurd (ground (arith, h))
times-take_out j k (x ∷ ks) h = elim (Bool-cases (x == j)) [
  | inl here ↦ ground (arith, here)
  | inr other ↦
      let rest : is_in j ks ≡ true = ground (arith, h, other) in
      rw other (ground (arith, times-take_out j k ks rest))
]

length-take_out :
    (j : ℕ) (ks : List ℕ) → is_in j ks ≡ true → suc (length (take_out j ks)) ≡ length ks
unfolding take_out
length-take_out j [] h = absurd (ground (arith, h))
length-take_out j (x ∷ ks) h = elim (Bool-cases (x == j)) [
  | inl here ↦ rw here refl
  | inr other ↦
      let rest : is_in j ks ≡ true = ground (arith, h, other) in
      rw other (ground (arith, length-take_out j ks rest))
]

-- In how many places a poll is.
pub places : ℕ → Pool → ℕ
unfolding times
places j p = times j p.waiting + times j p.running + (times j p.ended + times j p.dropped)

-- At most as many polls run as there are workers, and each poll that was submitted is in one place:
-- it waits, runs, has ended or was dropped.
pub record IsBounded (workers : ℕ) (p : Pool) : Type 0 where
  pub size : p.workers ≡ workers
  pub bounded : length p.running ≤ workers
  pub once : (j : ℕ) → places j p ≡ one_if (ltb j p.next)

new_pool-IsBounded : (workers : ℕ) → IsBounded workers (new_pool workers)
unfolding new_pool places times
new_pool-IsBounded workers = record { size = refl; bounded = omega arith; once = λ j. ground arith }

submits-IsBounded : {n : ℕ} (p : Pool) → IsBounded n p → IsBounded n (submits p)
unfolding submits places times
submits-IsBounded p h = record {
  size = h.size;
  bounded = h.bounded;
  once = λ j. ground (arith, h.once j);
}

kept_if :
    {n : ℕ} (b : Bool) (q p : Pool)
    → (b ≡ true → IsBounded n q)
    → IsBounded n p
    → IsBounded n (if b then q else p)
kept_if true q p moved h = moved refl
kept_if false q p moved h = h

starts-IsBounded : {n : ℕ} (j : ℕ) (p : Pool) → IsBounded n p → IsBounded n (starts j p)
unfolding starts places times
starts-IsBounded j p h =
    kept_if (is_in j p.waiting && ltb (length p.running) p.workers) _ p
      (λ may.
        let waits : is_in j p.waiting ≡ true = ground (arith, may) in
        record {
          size = h.size;
          bounded = ground (arith, may, h.size);
          once = λ k. omega (arith, h.once k, times-take_out j k p.waiting waits);
        })
      h

drops-IsBounded : {n : ℕ} (j : ℕ) (p : Pool) → IsBounded n p → IsBounded n (drops j p)
unfolding drops places times
drops-IsBounded j p h =
    kept_if (is_in j p.waiting) _ p
      (λ waits. record {
        size = h.size;
        bounded = h.bounded;
        once = λ k. omega (arith, h.once k, times-take_out j k p.waiting waits);
      })
      h

ends-IsBounded : {n : ℕ} (j : ℕ) (p : Pool) → IsBounded n p → IsBounded n (ends j p)
unfolding ends places times
ends-IsBounded j p h =
    kept_if (is_in j p.running) _ p
      (λ runs. record {
        size = h.size;
        bounded = omega (arith, h.bounded, length-take_out j p.running runs);
        once = λ k. omega (arith, h.once k, times-take_out j k p.running runs);
      })
      h

pool_step-IsBounded :
    {n : ℕ} (a : PoolStep) (p : Pool) → IsBounded n p → IsBounded n (pool_step a p)
unfolding pool_step
pool_step-IsBounded submit_step p h = submits-IsBounded p h
pool_step-IsBounded (start_step j) p h = starts-IsBounded j p h
pool_step-IsBounded (drop_step j) p h = drops-IsBounded j p h
pool_step-IsBounded (end_step j) p h = ends-IsBounded j p h

steps-IsBounded :
    {n : ℕ} (steps : List PoolStep) (p : Pool) → IsBounded n p → IsBounded n (pool_steps steps p)
unfolding pool_steps
steps-IsBounded [] p h = h
steps-IsBounded (a ∷ more) p h = steps-IsBounded more _ (pool_step-IsBounded a p h)

-- However calls of Submit, their contexts and their goroutines interleave on a new poller, at most
-- as many polls run at once as it has workers, and every poll that was submitted is in one place:
-- it waits, runs, has ended, or was dropped with its context.
pub pool_steps-IsBounded :
    (workers : ℕ) (steps : List PoolStep) → IsBounded workers (pool_steps steps (new_pool workers))
pool_steps-IsBounded workers steps = steps-IsBounded steps _ (new_pool-IsBounded workers)
