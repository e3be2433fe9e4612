-- ===== src/Tier/Manager.antt =====
-- lib/tier/manager.go: the Manager, rebalanceLocked and the methods. `bots` lists the entries of
-- the map, whose key is always `bot.KeyID` of its entry. A method holds the lock while it changes
-- the state, so a history is a sequence of calls; it returns the state and the actions that it
-- hands to the Actuator after unlocking. `now` and `mem` are what Now and MemMB answer.
use mezon_go_sdk_turbo.Prelude.{
  ℕ, ◌+◌, String, Bool, false, not, ◌&&◌, List, [], ◌∷◌, ◌++◌, ltb, length, contains, if◌then◌else◌,
  Perm,
}
use mezon_go_sdk_turbo.Prelude.Int.{ℤ, pos_part}
use mezon_go_sdk_turbo.Float.{FloatOps}
use mezon_go_sdk_turbo.Types.{BotRef, Tier, warm, hot, is_hot, is_cold}
use mezon_go_sdk_turbo.Heap
use mezon_go_sdk_turbo.Tier.Config.{Config, eff_hot, with_defaults}
use mezon_go_sdk_turbo.Tier.Score.{Entry, Scored, nothing_scored, score_all, higher}
use mezon_go_sdk_turbo.Tier.Slots.{
  Slots, no_slots, has_room, fill_hot, fill_spare, left_out, sort_entries,
}

-- The side effects that the Actuator performs, with what each call is given.
pub data Action : Type 0 where
  open_hot : BotRef → Action
  close_hot : String → Action
  poll : BotRef → Action

pub record Manager (Float : Type 0) : Type 0 where
  pub cfg : Config Float
  pub bots : List (Entry Float)

-- Go ranges over a map in an order of its own: the orders of the three loops over `m.bots`.
pub record Orders (Float : Type 0) : Type 0 where
  pub scoring : List (Entry Float) → List (Entry Float)
  pub spare : List (Entry Float) → List (Entry Float)
  pub reconcile : List (Entry Float) → List (Entry Float)

-- Each loop visits every entry once.
pub record IsRange {Float : Type 0} (o : Orders Float) : Type 0 where
  pub scoring : (es : List (Entry Float)) → Perm (o.scoring es) es
  pub spare : (es : List (Entry Float)) → Perm (o.spare es) es
  pub reconcile : (es : List (Entry Float)) → Perm (o.reconcile es) es

-- `target == types.Hot && !selected[…]` makes it Warm.
unfoldable pub target_of : Tier → Bool → Tier
target_of hot false = warm
target_of t _ = t

module _ {Float : Type 0} where
  -- Step 4 on one bot: the actions of a change of tier.
  unfoldable pub change : Tier → Entry Float → List Action
  change target e =
      if is_hot target
      then (if is_hot e.tier then [] else open_hot e.bot ∷ [])
      else (if is_hot e.tier then close_hot e.bot.key_id ∷ [] else [])

  -- Step 5: a poll that is due, of a bot that is not hot.
  poll_due : ℕ → Entry Float → Bool
  poll_due now e = not (is_hot e.tier) && not (ltb now e.next_poll)

  poll_interval : Config Float → Tier → ℕ
  poll_interval c t = pos_part (if is_cold t then c.cold_poll else c.warm_poll)

  -- Steps 4 and 5 on one bot.
  unfoldable pub settle : Config Float → ℕ → Tier → Entry Float → Entry Float
  unfolding poll_due poll_interval
  settle c now target e =
      let e' = record e { tier = target } in
      if poll_due now e' then record e' { next_poll = now + poll_interval c target } else e'

  unfoldable pub settle_actions : ℕ → Tier → Entry Float → List Action
  unfolding change poll_due
  settle_actions now target e =
      change target e ++ (if poll_due now (record e { tier = target }) then poll e.bot ∷ [] else [])

  -- The target of a bot when the slots are filled.
  unfoldable pub target : Slots → Entry Float → Tier
  unfolding target_of
  target s e = target_of (s.want e.bot.key_id) (contains s.selected e.bot.key_id)

  -- The loop of steps 4 and 5: the entries and the actions.
  unfoldable pub settle_all : Config Float → ℕ → Slots → List (Entry Float) → List (Entry Float)
  unfolding settle target
  settle_all c now s [] = []
  settle_all c now s (e ∷ es) = settle c now (target s e) e ∷ settle_all c now s es

  unfoldable pub all_actions : ℕ → Slots → List (Entry Float) → List Action
  unfolding settle_actions target
  all_actions now s [] = []
  all_actions now s (e ∷ es) = settle_actions now (target s e) e ++ all_actions now s es

module _ {Float : Type 0} ⦃f : FloatOps Float⦄ where
  -- Step 1, from the empty `want` and `candidates`.
  unfoldable pub scored : Orders Float → ℕ → Manager Float → Scored Float
  unfolding score_all
  scored o now m = score_all m.cfg now (o.scoring m.bots) nothing_scored

  -- Steps 2 and 3: the slots that the candidates get.
  unfoldable pub hot_slots : Config Float → ℤ → Scored Float → Slots
  unfolding fill_hot
  hot_slots c eff s =
      fill_hot c eff (length s.candidates) (Heap.init higher s.candidates) (no_slots s.want)

  -- Step 3b.
  unfoldable pub spare_slots : Orders Float → Config Float → ℤ → List (Entry Float) → Slots → Slots
  unfolding fill_spare left_out sort_entries has_room
  spare_slots o c eff es s =
      if has_room eff s
      then fill_spare c eff (sort_entries (left_out s.selected (o.spare es))) s
      else s

  unfoldable pub slots : Orders Float → ℕ → ℕ → Manager Float → Slots
  unfolding scored hot_slots spare_slots eff_hot
  slots o now mem m =
      let eff = eff_hot m.cfg mem in
      let s = scored o now m in spare_slots o m.cfg eff s.entries (hot_slots m.cfg eff s)

  -- `rebalanceLocked(now)`
  unfoldable pub rebalance_locked :
      Orders Float → ℕ → ℕ → Manager Float → Manager Float × List Action
  unfolding slots settle_all all_actions scored
  rebalance_locked o now mem m =
      let s = slots o now mem m in
      let es = o.reconcile (scored o now m).entries in
      (record m { bots = settle_all m.cfg now s es }, all_actions now s es)

  -- `New`
  unfoldable pub new : Config Float → Manager Float
  unfolding with_defaults
  new c = record { cfg = with_defaults c; bots = [] }
