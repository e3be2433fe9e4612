-- ===== src/Rest/Messages.antt =====
-- lib/rest/rest.go: ListSince and fromAPI. The client that is generated for Mezon's API is a
-- parameter, `list_messages`, a function of the request and of the state of the server.
use mezon_go_sdk_turbo.Prelude.{
  ℕ, Bool, ltb, List, [], ◌∷◌, Option, none, some, Bytes, is_empty, if◌then◌else◌,
}
use mezon_go_sdk_turbo.Types.{Message}
use mezon_go_sdk_turbo.State.{Result, ok, err}

-- The arguments of MezonListChannelMessages; an option that is not set is `none`.
pub record ListRequest : Type 0 where
  pub access_token : Option Bytes
  pub channel_id : Bytes
  pub direction : ℕ
  pub clan_id : Option Bytes
  pub message_id : Option Bytes
  pub limit : Option ℕ

-- The fields of ApiChannelMessage that are read.
pub record ApiMessage : Type 0 where
  pub channel_id : Bytes
  pub clan_id : Bytes
  pub message_id : Bytes
  pub sender_id : Bytes
  pub content : Bytes
  pub mentions : Bytes
  pub attachments : Bytes
  pub references : Bytes
  pub username : Bytes
  pub display_name : Bytes
  pub clan_nick : Bytes
  pub channel_label : Bytes
  pub mode : ℕ
  pub is_public : Bool

-- The messages, and the id of LastSeenMessage where there is one.
pub record ListAnswer : Type 0 where
  pub messages : List ApiMessage
  pub last_seen : Option Bytes

abbrev pub direction_after : ℕ
direction_after = 1

unfoldable pub from_api : ApiMessage → Message
from_api m = record {
  channel_id = m.channel_id;
  clan_id = m.clan_id;
  message_id = m.message_id;
  sender_id = m.sender_id;
  content = m.content;
  mentions = m.mentions;
  attachments = m.attachments;
  references = m.references;
  username = m.username;
  avatar = [];
  display_name = m.display_name;
  clan_nick = m.clan_nick;
  channel_label = m.channel_label;
  mode = m.mode;
  is_public = m.is_public;
}

unfoldable pub from_all : List ApiMessage → List Message
unfolding from_api
from_all [] = []
from_all (m ∷ ms) = from_api m ∷ from_all ms

-- `if v != "" { opts.X = optional.NewString(v) }`, and the token of authCtx.
unfoldable pub optional : Bytes → Option Bytes
optional v = if is_empty v then none else some v

-- `res.Messages[n-1].MessageId`, where there is a message.
abbrev pub last_id : Bytes → List ApiMessage → Bytes
last_id cursor [] = cursor
last_id cursor (m ∷ ms) = last_id m.message_id ms

abbrev pub or_last : Bytes → List ApiMessage → Option Bytes → Bytes
or_last cursor ms none = last_id cursor ms
or_last cursor ms (some id) = if is_empty id then last_id cursor ms else id

unfoldable pub new_cursor : Bytes → ListAnswer → Bytes
new_cursor cursor a = or_last cursor a.messages a.last_seen

unfoldable pub list_request : Bytes → Bytes → Bytes → Bytes → ℕ → ListRequest
unfolding optional
list_request token channel_id clan_id cursor limit = record {
  access_token = optional token;
  channel_id = channel_id;
  direction = direction_after;
  clan_id = optional clan_id;
  message_id = optional cursor;
  limit = if ltb 0 limit then some limit else none;
}

abbrev pub page_of : Bytes → Result ListAnswer → Result (List Message × Bytes)
page_of cursor (err e) = err e
page_of cursor (ok a) = ok (from_all a.messages, new_cursor cursor a)

module _ {W : Type 0} (list_messages : ListRequest → W → Result ListAnswer × W) where
  -- `ListSince`, whose cursor is the old one where there is an error.
  unfoldable pub list_since :
      Bytes → Bytes → Bytes → Bytes → ℕ → W → Result (List Message × Bytes) × W
  unfolding list_request new_cursor from_all
  list_since token channel_id clan_id cursor limit s =
      let r = list_messages (list_request token channel_id clan_id cursor limit) s in
      (page_of cursor r.0, r.1)
