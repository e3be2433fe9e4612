-- ===== src/Tier/Tests.antt =====
-- Runs of the manager on concrete bots, and its theorems there. Floats are tenths here.
use mathlib.Core.List.Perm
use mezon_go_sdk_turbo.Prelude.{
  ℕ, ◌+◌, ◌-◌, ◌*◌, ◌/◌, ◌≤◌, ◌≡◌, refl, ◌&&◌, String, false, List, [], ◌∷◌, none, arith, All,
  count_if, ltb,
}
use mezon_go_sdk_turbo.Prelude.Int.{pos, pos_part}
use mezon_go_sdk_turbo.Float.{FloatOps}
use mezon_go_sdk_turbo.Types.{BotRef, is_hot}
use mezon_go_sdk_turbo.Heap
use mezon_go_sdk_turbo.Tier.Config.{Config, eff_hot, plan_weight}
use mezon_go_sdk_turbo.Tier.Score.{score_entry, desired_tier, time_sub}
use mezon_go_sdk_turbo.Tier.Manager.{
  Manager, Orders, IsRange, open_hot, poll, rebalance_locked, new,
}
use mezon_go_sdk_turbo.Tier.Calls.{add, hot_count, run, Call, adds, removes, touches, rebalances}
use mezon_go_sdk_turbo.Tier.Keys.{IsMap, CallIsRange, run-IsMap}
use mezon_go_sdk_turbo.Tier.Budget.{hot_count-rebalance_locked}
use mezon_go_sdk_turbo.Tier.Members.{same_tenant}
use mezon_go_sdk_turbo.Tier.Fairness.{hot_per_tenant-rebalance_locked}
use mezon_go_sdk_turbo.Tier.Conserve.{LeftOut, rebalance_locked_conserves}
use mezon_go_sdk_turbo.Tier.Agreement.{Agrees}
use mezon_go_sdk_turbo.Tier.History.{drive, closed, drive-new-Agrees}

instance abbrev pub tenth_ops : FloatOps ℕ
tenth_ops = record {
  add = λ a b. a + b;
  sub = λ a b. a - b;
  mul = λ a b. a * b / 10;
  div = λ a b. a * 10 / b;
  less = ltb;
  tenths = λ n. n;
  seconds = λ d. pos_part d / 100_000_000;
}

abbrev pub bot : String → String → String → BotRef
bot key tenant plan = record {
  key_id = key;
  tenant_id = tenant;
  bot_user_id = [];
  bot_token = 116 ∷ [];
  workspace_id = "";
  bot_version_id = "";
  plan = plan;
  bot_username = [];
  bot_display_name = [];
  channel_triggers = [];
  command_prefixes = [];
}

-- Two sockets, one for each tenant.
abbrev pub config : Config ℕ
config = record {
  max_hot = pos 2;
  pressure_hot_cap = pos 1;
  hot_per_tenant = pos 1;
  warm_poll = pos 0;
  cold_poll = pos 0;
  hot_idle = pos 0;
  warm_idle = pos 0;
  tick = pos 0;
  plan_weight = none;
  mem_high_mb = 100;
  mem_low_mb = 0;
}

abbrev pub orders : Orders ℕ
orders = record { scoring = λ es. es; spare = λ es. es; reconcile = λ es. es }

pub orders-IsRange : IsRange orders
orders-IsRange = record { scoring = Perm.refl; spare = Perm.refl; reconcile = Perm.refl }

abbrev pub start : ℕ
start = 1_000_000_000

abbrev calls : List (Call ℕ)
calls =
    adds start (bot "a" "acme" "starter")
    ∷ adds start (bot "b" "acme" "pro")
    ∷ adds start (bot "c" "zeta" "starter")
    ∷ rebalances orders (start + 1) 0
    ∷ touches orders (start + 2) 0 "a"
    ∷ removes "b"
    ∷ rebalances orders (start + 3) 200
    ∷ []

calls-IsRange : All CallIsRange calls
calls-IsRange = (tt, (tt, (tt, (orders-IsRange, (orders-IsRange, (tt, (orders-IsRange, tt)))))))

three : Manager ℕ
three = run (new config) (
    adds start (bot "a" "acme" "starter")
    ∷ adds start (bot "b" "acme" "pro")
    ∷ adds start (bot "c" "zeta" "starter")
    ∷ [])

-- The bot of the better plan gets its tenant's socket.
three_rebalanced :
    (rebalance_locked orders (start + 1) 0 three).1
    ≡ poll (bot "a" "acme" "starter")
      ∷ open_hot (bot "b" "acme" "pro")
      ∷ open_hot (bot "c" "zeta" "starter")
      ∷ []
unfolding three run new rebalance_locked add desired_tier time_sub Heap.push Heap.pop Heap.init
    score_entry plan_weight
three_rebalanced = refl

three-IsMap : IsMap three
unfolding three
three-IsMap = run-IsMap (new config) _ (unfold new in λ k. omega arith) (tt, (tt, (tt, tt)))

-- Under memory pressure one bot stays hot.
hot_count-rebalance_locked_example : hot_count (rebalance_locked orders (start + 1) 200 three).0 ≤ 1
unfolding three run new add eff_hot
hot_count-rebalance_locked_example =
    hot_count-rebalance_locked orders (start + 1) 200 three orders-IsRange three-IsMap

hot_per_tenant-rebalance_locked_example :
    count_if
      (λ e. same_tenant "acme" e.bot && is_hot e.tier)
      (rebalance_locked orders (start + 1) 0 three).0.bots
    ≤ 1
unfolding three run new add
hot_per_tenant-rebalance_locked_example =
    hot_per_tenant-rebalance_locked orders (start + 1) 0 three "acme" orders-IsRange three-IsMap
      (omega arith)

rebalance_locked_conserves_example :
    All
      (λ e.
        is_hot e.tier ≡ false
        → LeftOut three.cfg
            (eff_hot three.cfg 0)
            (rebalance_locked orders (start + 1) 0 three).0.bots
            e)
      (rebalance_locked orders (start + 1) 0 three).0.bots
rebalance_locked_conserves_example =
    rebalance_locked_conserves orders (start + 1) 0 three orders-IsRange three-IsMap

drive-new-Agrees_example :
    Agrees (drive (new config, closed) calls).1 (drive (new config, closed) calls).0
    × ((drive (new config, closed) calls).1.faulted ≡ false)
drive-new-Agrees_example =
    drive-new-Agrees config calls calls-IsRange (tt, (tt, (tt, (tt, (tt, (tt, (tt, tt)))))))
