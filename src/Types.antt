-- ===== src/Types.antt =====
-- lib/types/types.go: tiers, bot references and normalised messages.
use mezon_go_sdk_turbo.Prelude.{
  ℕ, ◌==◌, String, Bytes, is_empty, Bool, true, false, ◌||◌, List, [], ◌∷◌,
}

-- `cold` is the zero value: what a missing key of a `map[string]Tier` reads as.
pub data Tier : Type 0 where
  cold warm hot : Tier

-- `(Tier).String`. The switch has no case but these three on the three constants.
unfoldable pub to_string : Tier → String
to_string hot = "hot"
to_string warm = "warm"
to_string cold = "cold"

-- `t == types.Hot` and `t == types.Cold`.
abbrev pub is_hot : Tier → Bool
is_hot hot = true
is_hot _ = false

abbrev pub is_cold : Tier → Bool
is_cold cold = true
is_cold _ = false

pub record ChannelTrigger : Type 0 where
  pub matcher : String
  pub channel_type : String
  pub mode : String
  pub patterns : List String

pub record BotRef : Type 0 where
  pub key_id : String
  pub tenant_id : String
  pub bot_user_id : Bytes
  pub bot_token : Bytes
  pub workspace_id : String
  pub bot_version_id : String
  pub plan : String
  pub bot_username : Bytes
  pub bot_display_name : Bytes
  pub channel_triggers : List ChannelTrigger
  pub command_prefixes : List String

-- `mode` is an int32, here the bit pattern below 2 ^ 32.
pub record Message : Type 0 where
  pub channel_id : Bytes
  pub clan_id : Bytes
  pub message_id : Bytes
  pub sender_id : Bytes
  pub content : Bytes
  pub mentions : Bytes
  pub attachments : Bytes
  pub references : Bytes
  pub username : Bytes
  pub avatar : Bytes
  pub display_name : Bytes
  pub clan_nick : Bytes
  pub channel_label : Bytes
  pub mode : ℕ
  pub is_public : Bool

-- `s == "0"`: 48 is the digit 0.
abbrev pub is_zero : Bytes → Bool
is_zero [] = false
is_zero (c ∷ []) = c == 48
is_zero (c ∷ d ∷ cs) = false

unfoldable pub is_dm : Message → Bool
is_dm m = is_empty m.clan_id || is_zero m.clan_id
