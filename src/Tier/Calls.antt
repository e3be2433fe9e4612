-- ===== src/Tier/Calls.antt =====
-- lib/tier/manager.go: the methods of Manager, as calls of a history. `now` and `mem` are what
-- Now and MemMB answer in the call, `o` the orders of its ranges.
use mezon_go_sdk_turbo.Prelude.{
  ℕ, String, Bool, List, [], ◌∷◌, ◌++◌, count_if, str_eq, if◌then◌else◌, Option, none, some,
}
use mezon_go_sdk_turbo.Float.{FloatOps}
use mezon_go_sdk_turbo.Types.{BotRef, Tier, cold, is_hot}
use mezon_go_sdk_turbo.Tier.Score.{Entry}
use mezon_go_sdk_turbo.Tier.Manager.{Manager, Orders, Action, close_hot, rebalance_locked}

module _ {Float : Type 0} where
  abbrev pub has_key : String → Entry Float → Bool
  has_key k e = str_eq e.bot.key_id k

  -- `e, ok := m.bots[keyID]`
  unfoldable pub find : String → List (Entry Float) → Option (Entry Float)
  find k [] = none
  find k (e ∷ es) = if has_key k e then some e else find k es

  -- Writes through the pointer that `m.bots[keyID]` holds, and `delete(m.bots, keyID)`.
  unfoldable pub modify :
      String → (Entry Float → Entry Float) → List (Entry Float) → List (Entry Float)
  modify k g [] = []
  modify k g (e ∷ es) = if has_key k e then g e ∷ es else e ∷ modify k g es

  unfoldable pub delete : String → List (Entry Float) → List (Entry Float)
  delete k [] = []
  delete k (e ∷ es) = if has_key k e then es else e ∷ delete k es

  tier_of_found : Option (Entry Float) → Tier
  tier_of_found none = cold
  tier_of_found (some e) = e.tier

  unfoldable pub tier_of : String → Manager Float → Tier
  unfolding tier_of_found find
  tier_of k m = tier_of_found (find k m.bots)

  unfoldable pub hot_count : Manager Float → ℕ
  hot_count m = count_if (λ e. is_hot e.tier) m.bots

  unfoldable pub close_if_hot : Option (Entry Float) → String → List Action
  close_if_hot none k = []
  close_if_hot (some e) k = if is_hot e.tier then close_hot k ∷ [] else []

  unfoldable pub remove : String → Manager Float → Manager Float × List Action
  unfolding find delete close_if_hot
  remove k m = (record m { bots = delete k m.bots }, close_if_hot (find k m.bots) k)

  unfoldable pub force_tier : String → Tier → Manager Float → Manager Float
  unfolding modify
  force_tier k t m = record m { bots = modify k (λ e. record e { tier = t }) m.bots }

module _ {Float : Type 0} ⦃f : FloatOps Float⦄ where
  unfoldable pub new_entry : ℕ → BotRef → Entry Float
  new_entry now bot = record {
    bot = bot;
    tier = cold;
    last_activity = now;
    rate = f.tenths 0;
    score = f.tenths 0;
    next_poll = now;
  }

  unfoldable pub add_missing : Option (Entry Float) → ℕ → BotRef → Manager Float → Manager Float
  unfolding new_entry
  add_missing (some e) now bot m = m
  add_missing none now bot m = record m { bots = m.bots ++ (new_entry now bot ∷ []) }

  unfoldable pub add : ℕ → BotRef → Manager Float → Manager Float
  unfolding find add_missing
  add now bot m = add_missing (find bot.key_id m.bots) now bot m

  -- The body of the `if` in Touch.
  unfoldable pub bump : ℕ → Entry Float → Entry Float
  bump now e = record e {
    last_activity = now;
    rate = f.add (f.mul e.rate (f.tenths 7)) (f.tenths 10);
  }

  unfoldable pub touch : Orders Float → ℕ → ℕ → String → Manager Float → Manager Float × List Action
  unfolding modify bump
  touch o now mem k m = rebalance_locked o now mem (record m { bots = modify k (bump now) m.bots })

  -- Rebalance, and each tick of Run.
  unfoldable pub rebalance : Orders Float → ℕ → ℕ → Manager Float → Manager Float × List Action
  rebalance o now mem m = rebalance_locked o now mem m

-- The calls that change the state.
pub data Call (Float : Type 0) : Type 0 where
  adds : ℕ → BotRef → Call Float
  removes : String → Call Float
  touches : Orders Float → ℕ → ℕ → String → Call Float
  rebalances : Orders Float → ℕ → ℕ → Call Float
  forces : String → Tier → Call Float

module _ {Float : Type 0} ⦃f : FloatOps Float⦄ where
  unfoldable pub step : Manager Float → Call Float → Manager Float × List Action
  step m (adds now bot) = (add now bot m, [])
  step m (removes k) = remove k m
  step m (touches o now mem k) = touch o now mem k m
  step m (rebalances o now mem) = rebalance o now mem m
  step m (forces k t) = (force_tier k t m, [])

  unfoldable pub run : Manager Float → List (Call Float) → Manager Float
  unfolding step
  run m [] = m
  run m (c ∷ cs) = run (step m c).0 cs
