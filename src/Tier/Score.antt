-- ===== src/Tier/Score.antt =====
-- lib/tier/manager.go: `entry`, and step 1 of rebalanceLocked, which scores every bot.
-- An instant is a number of nanoseconds since Go's zero time.
use mezon_go_sdk_turbo.Prelude.{
  ℕ, ◌-◌, ◌^◌, String, Bool, ◌||◌, List, [], ◌∷◌, ◌++◌, ltb, leb, ◌==◌, if◌then◌else◌, update,
}
use mezon_go_sdk_turbo.Prelude.Int.{ℤ, pos, negsuc, ltb_ℤ}
use mezon_go_sdk_turbo.Float.{FloatOps}
use mezon_go_sdk_turbo.Types.{BotRef, Tier, cold, warm, hot}
use mezon_go_sdk_turbo.Heap
use mezon_go_sdk_turbo.Tier.Config.{Config, plan_weight}

pub record Entry (Float : Type 0) : Type 0 where
  pub bot : BotRef
  pub tier : Tier
  pub last_activity : ℕ
  pub rate : Float
  pub score : Float
  pub next_poll : ℕ

-- `(time.Time).Sub`: the difference, held at the bounds of an int64.
unfoldable pub time_sub : ℕ → ℕ → ℤ
time_sub a b =
    if leb b a
    then (if ltb (a - b) (2 ^ 63) then pos (a - b) else pos (2 ^ 63 - 1))
    else (if leb (b - a) (2 ^ 63) then negsuc (b - a - 1) else negsuc (2 ^ 63 - 1))

module _ {Float : Type 0} ⦃f : FloatOps Float⦄ where
  -- `if r < 0 { r = 0 }`
  clamp : Float → Float
  clamp r = if f.less r (f.tenths 0) then f.tenths 0 else r

  recency : Config Float → ℤ → Float
  unfolding clamp
  recency c age = clamp (f.sub (f.tenths 10) (f.div (f.seconds age) (f.seconds c.hot_idle)))

  -- The first lines of the loop: decay the rate and compute the score.
  unfoldable pub score_entry : Config Float → ℕ → Entry Float → Entry Float
  unfolding recency
  score_entry c now e =
      let rate = f.mul e.rate (f.tenths 9) in
      let weight = f.mul (plan_weight c e.bot.plan) (f.tenths 1000) in
      let fresh = f.mul (recency c (time_sub now e.last_activity)) (f.tenths 100) in
      record e { rate = rate; score = f.add (f.add weight fresh) rate }

  -- `(scoreHeap).Less` on two entries: the heap gives the highest score first.
  unfoldable pub higher : Entry Float → Entry Float → Bool
  higher a b = f.less b.score a.score

-- The switch of step 1: the tier that a bot's own activity asks for.
unfoldable pub desired_tier : {Float : Type 0} → Config Float → ℕ → Entry Float → Tier
desired_tier c now e =
    let age = time_sub now e.last_activity in
    if e.last_activity == 0 || ltb_ℤ c.warm_idle age
    then cold
    else if ltb_ℤ c.hot_idle age
    then warm
    else hot

-- The variables that the loop of step 1 sets. A key that `want` does not hold reads as `cold`.
pub record Scored (Float : Type 0) : Type 0 where
  pub entries : List (Entry Float)
  pub want : String → Tier
  pub candidates : List (Entry Float)

-- `want` and `candidates` as step 1 makes them.
abbrev pub nothing_scored : {Float : Type 0} → Scored Float
nothing_scored = record { entries = []; want = λ _. cold; candidates = [] }

module _ {Float : Type 0} ⦃f : FloatOps Float⦄ where
  -- `case`s other than hot do not push.
  unfoldable pub push_if_hot : Tier → Entry Float → List (Entry Float) → List (Entry Float)
  push_if_hot hot e cs = Heap.push cs e
  push_if_hot warm e cs = cs
  push_if_hot cold e cs = cs

  -- One round of the loop.
  unfoldable pub score_round : Config Float → ℕ → Entry Float → Scored Float → Scored Float
  unfolding push_if_hot
  score_round c now e s =
      let scored = score_entry c now e in
      let tier = desired_tier c now e in
      record {
        entries = s.entries ++ (scored ∷ []);
        want = update s.want e.bot.key_id tier;
        candidates = push_if_hot tier scored s.candidates;
      }

  -- `for _, e := range m.bots`, over the entries in the order of this range.
  unfoldable pub score_all : Config Float → ℕ → List (Entry Float) → Scored Float → Scored Float
  unfolding score_round
  score_all c now [] s = s
  score_all c now (e ∷ es) s = score_all c now es (score_round c now e s)
