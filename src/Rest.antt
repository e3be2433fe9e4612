-- ===== src/Rest.antt =====
-- lib/rest/clans.go: the answers of ListClanDescs and ListChannelDescs, from the payload on.
pub mod Repeated
pub mod Ids
pub mod Answers
pub mod Channels
pub mod Session
pub mod Account
pub mod User
pub mod Calls
pub mod Messages
mod Tests
use mezon_go_sdk_turbo.Prelude.{
  ℕ, ◌==◌, Bool, true, false, not, ◌&&◌, ◌||◌, List, [], ◌∷◌, ◌++◌, Option, none, some, Bytes,
  is_empty, drop, length, format_uint, if◌then◌else◌,
}
use mezon_go_sdk_turbo.Types.{is_zero}
use mezon_go_sdk_turbo.Proto.{ProtoWire, Consumed, failed, took, bytes_type}
use mezon_go_sdk_turbo.Ws.Walk.{Visitor, walk_varints}
use mezon_go_sdk_turbo.Ws.Channel.{Round, goes, returns, rounds}

pub record Clan : Type 0 where
  pub id : Bytes
  pub name : Bytes

pub record Channel : Type 0 where
  pub id : Bytes
  pub label : Bytes

-- The errors of eachRepeated.
pub data WireError : Type 0 where
  bad_tag bad_bytes : WireError
  bad_field : ℕ → WireError

abbrev pub channel_type_text : ℕ
channel_type_text = 1

abbrev text_of : Option Bytes → Bytes
text_of none = []
text_of (some s) = s

-- The visitor of a clan, and of a channel with its type.
unfoldable pub visit_clan : Visitor Clan
visit_clan num v b cl =
    if num == 2
    then record cl { name = text_of b }
    else if num == 5
    then record cl { id = format_uint v }
    else cl

unfoldable pub visit_channel : Visitor (Channel × ℕ)
visit_channel num v b (ch, typ) =
    if num == 3
    then (record ch { id = format_uint v }, typ)
    else if num == 6
    then (ch, v)
    else if num == 8
    then (record ch { label = text_of b }, typ)
    else (ch, typ)

-- `id != "" && id != "0"`
abbrev pub has_id : Bytes → Bool
has_id id = not (is_empty id) && not (is_zero id)

-- The end of a round after a consume function that may fail with an error.
abbrev then_do :
    {S A : Type 0}
    → WireError
    → (A → S → S)
    → Bytes
    → S
    → Consumed A
    → Round S (S × Option WireError)
then_do bad change b s (failed err) = returns (s, some bad)
then_do bad change b s (took a n) = goes (drop n b) (change a s)

module _ ⦃w : ProtoWire⦄ where
  module _ {S : Type 0} (visit : Bytes → S → S) where
    unfoldable pub repeated_field : ℕ → ℕ → Bytes → S → Round S (S × Option WireError)
    repeated_field num typ b s =
        if num == 1 && typ == bytes_type
        then then_do bad_bytes visit b s (w.consume_bytes b)
        else then_do (bad_field num) (λ u s. s) b s (w.consume_field_value num typ b)

    unfoldable pub repeated_tagged : Bytes → S → Consumed (ℕ × ℕ) → Round S (S × Option WireError)
    unfolding repeated_field
    repeated_tagged b s (failed err) = returns (s, some bad_tag)
    repeated_tagged b s (took (num, typ) n) = repeated_field num typ (drop n b) s

    unfoldable pub repeated_round : Bytes → S → Round S (S × Option WireError)
    unfolding repeated_tagged
    repeated_round b s = repeated_tagged b s (w.consume_tag b)

    -- `eachRepeated(b, fn)`: the state of `fn`, and the error.
    unfoldable pub each_repeated : Bytes → S → S × Option WireError
    unfolding rounds repeated_round
    each_repeated b s = rounds repeated_round (λ s. (s, none)) (length b) b s

  -- `walk`, which does what walkVarints does.
  unfoldable pub walk : {S : Type 0} → Bytes → Visitor S → S → S
  unfolding walk_varints
  walk b visit s = walk_varints b visit s

  abbrev pub no_clan : Clan
  no_clan = record { id = []; name = [] }

  unfoldable pub add_clan : Bytes → List Clan → List Clan
  unfolding walk visit_clan
  add_clan desc clans =
      let cl = walk desc visit_clan no_clan in if has_id cl.id then clans ++ (cl ∷ []) else clans

  abbrev pub no_channel : Channel × ℕ
  no_channel = (record { id = []; label = [] }, channel_type_text)

  unfoldable pub add_channel : Bytes → List Channel → List Channel
  unfolding walk visit_channel
  add_channel desc chans =
      let (ch, typ) = walk desc visit_channel no_channel in
      if has_id ch.id && typ == channel_type_text then chans ++ (ch ∷ []) else chans

  -- `if err != nil { return nil, … }`
  abbrev pub or_nothing : {A : Type 0} → List A × Option WireError → List A × Option WireError
  or_nothing (xs, none) = (xs, none)
  or_nothing (xs, some e) = ([], some e)

  -- ListClans and ListChannels after the call.
  unfoldable pub clans_of : Bytes → List Clan × Option WireError
  unfolding each_repeated add_clan
  clans_of payload = or_nothing (each_repeated add_clan payload [])

  unfoldable pub channels_of : Bytes → List Channel × Option WireError
  unfolding each_repeated add_channel
  channels_of payload = or_nothing (each_repeated add_channel payload [])

-- ListClanIDs.
unfoldable pub ids_of : List Clan → List Bytes
ids_of [] = []
ids_of (cl ∷ clans) = cl.id ∷ ids_of clans
