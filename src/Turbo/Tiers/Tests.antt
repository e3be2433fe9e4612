-- ===== src/Turbo/Tiers/Tests.antt =====
-- lib/turbo/turbo.go: an engine with one bot, whose socket is dialed.
use mezon_go_sdk_turbo.Prelude.{ℕ, ◌+◌, ◌≡◌, refl, String, false, arith, none}
use mezon_go_sdk_turbo.Prelude.Int.{pos}
use mezon_go_sdk_turbo.Tier.Calls.{adds, rebalances, add, rebalance}
use mezon_go_sdk_turbo.Tier.Tests.{tenth_ops, config, bot, orders, orders-IsRange, start}
use mezon_go_sdk_turbo.Turbo.Register.{Node, called, dial_succeeds, opens_hot}
use mezon_go_sdk_turbo.Heap
use mezon_go_sdk_turbo.Tier.Config.{eff_hot}
use mezon_go_sdk_turbo.Tier.Score.{score_entry, desired_tier, time_sub}
use mezon_go_sdk_turbo.Tier.Manager.{new, rebalance_locked}
use mezon_go_sdk_turbo.Turbo.{new_engine}
use mezon_go_sdk_turbo.Turbo.Tiers.Reached.{
  Reach, begin, call_step, dialed_step, HoldsHot, Reach-HoldsHot, new_node,
}

-- After the first rebalance the socket is dialed.
abbrev wanted : Node ℕ
wanted =
    called (rebalances orders (start + 1) 0)
      (called (adds start (bot "a" "acme" "starter")) (new_node config (pos 0)))

wanted_open : ((k : String) → wanted.engine.hot k ≡ none) × (wanted.closed 0 ≡ false)
unfolding called opens_hot rebalance rebalance_locked add new new_engine eff_hot score_entry
    desired_tier time_sub Heap.push Heap.pop Heap.init
wanted_open = (λ k. refl, refl)

Reach-wanted : Reach config (pos 0) wanted
Reach-wanted =
    call_step (rebalances orders (start + 1) 0) orders-IsRange tt
      (call_step (adds start (bot "a" "acme" "starter")) tt tt begin)

Reach-HoldsHot_example : HoldsHot (dial_succeeds "a" 0 wanted)
Reach-HoldsHot_example = Reach-HoldsHot (
    dialed_step "a" 0 wanted_open.1 (λ k d had. absurd (ground (arith, had, wanted_open.0 k)))
      Reach-wanted)
