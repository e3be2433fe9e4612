-- ===== src/Tier.antt =====
-- lib/tier: the manager that gives each bot a tier. `Config` and `Score` are its settings and the
-- scoring of a bot, `Slots` the hot slots, `Manager` the rebalance and the methods; the other
-- children are about what a rebalance keeps.
pub mod Config
pub mod Score
pub mod Slots
pub mod Manager
pub mod Calls
pub mod Keys
pub mod Budget
pub mod Members
pub mod Fairness
pub mod Exact
pub mod Fill
pub mod Ready
pub mod Spare
pub mod Conserve
pub mod Actuator
pub mod Agreement
pub mod History
pub mod Forced
pub mod Tests
