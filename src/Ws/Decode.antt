-- ===== src/Ws/Decode.antt =====
-- lib/ws/decode.go: DecodeChannelMessage. Errors are those that ParseError makes of a negative
-- length.
use mezon_go_sdk_turbo.Prelude.{
  ℕ, ◌%◌, ◌^◌, ◌==◌, not, List, [], ◌∷◌, ◌++◌, map, Option, none, some, Bytes, drop, format_uint,
  if◌then◌else◌,
}
use mezon_go_sdk_turbo.Types.{Message}
use mezon_go_sdk_turbo.Proto.{ProtoWire}
use mezon_go_sdk_turbo.Ws.Walk.{Visitor, walk_varints, walk_wire}
use mezon_go_sdk_turbo.Ws.Json.{int32_text, quote, member, array}

abbrev pub field_channel_message : ℕ
field_channel_message = 6

-- `mention`, `attachment` and `ref`, the structs of the three conversions.
pub record MentionItem : Type 0 where
  pub user_id : Bytes
  pub s : ℕ
  pub e : ℕ

pub record AttachmentItem : Type 0 where
  pub filename : Bytes
  pub url : Bytes
  pub filetype : Bytes
  pub size : ℕ

pub record RefItem : Type 0 where
  pub message_id : Bytes
  pub sender_id : Bytes
  pub content : Bytes

-- A nil slice as a string.
abbrev text_of : Option Bytes → Bytes
text_of none = []
text_of (some s) = s

-- int32(v)
abbrev pub int32 : ℕ → ℕ
int32 v = v % 2 ^ 32

unfoldable pub visit_mention : Visitor MentionItem
visit_mention num v sv m =
    if num == 2
    then record m { user_id = format_uint v }
    else if num == 7
    then record m { s = int32 v }
    else if num == 8
    then record m { e = int32 v }
    else m

unfoldable pub visit_attachment : Visitor AttachmentItem
visit_attachment num v sv a =
    if num == 1
    then record a { filename = text_of sv }
    else if num == 2
    then record a { size = int32 v }
    else if num == 3
    then record a { url = text_of sv }
    else if num == 4
    then record a { filetype = text_of sv }
    else a

unfoldable pub visit_ref : Visitor RefItem
visit_ref num v sv r =
    if num == 1
    then record r { message_id = format_uint v }
    else if num == 3
    then record r { content = text_of sv }
    else if num == 6
    then record r { sender_id = format_uint v }
    else r

-- `{` stands for the comma that `member` puts before the first key.
abbrev object : Bytes → Bytes
object b = 123 ∷ (drop 1 b ++ (125 ∷ []))

unfoldable pub mention_json : MentionItem → Bytes
unfolding quote member int32_text
mention_json m = object (
    member "user_id" (quote m.user_id)
    ++ (member "s" (int32_text m.s) ++ member "e" (int32_text m.e)))

unfoldable pub attachment_json : AttachmentItem → Bytes
unfolding quote member int32_text
attachment_json a = object (
    member "filename" (quote a.filename)
    ++ (member "url" (quote a.url)
        ++ (member "filetype" (quote a.filetype) ++ member "size" (int32_text a.size))))

unfoldable pub ref_json : RefItem → Bytes
unfolding quote member
ref_json r = object (
    member "message_id" (quote r.message_id)
    ++ (member "message_sender_id" (quote r.sender_id) ++ member "content" (quote r.content)))

-- `if len(out) == 0 { return "" }`, and Marshal.
abbrev marshal : {A : Type 0} → (A → Bytes) → List A → Bytes
marshal show [] = []
marshal show (x ∷ xs) = array (show x) (map show xs)

module _ ⦃w : ProtoWire⦄ where
  -- The `out` of the three conversions.
  unfoldable pub items : {A : Type 0} → Visitor A → A → Bytes → List A
  unfolding walk_wire walk_varints
  items visit zero_item b =
      walk_wire b 1 (λ item out. out ++ (walk_varints item visit zero_item ∷ [])) []

  unfoldable pub mention_items : Bytes → List MentionItem
  unfolding items visit_mention
  mention_items b = items visit_mention (record { user_id = []; s = 0; e = 0 }) b

  unfoldable pub attachment_items : Bytes → List AttachmentItem
  unfolding items visit_attachment
  attachment_items b =
      items visit_attachment (record { filename = []; url = []; filetype = []; size = 0 }) b

  unfoldable pub ref_items : Bytes → List RefItem
  unfolding items visit_ref
  ref_items b = items visit_ref (record { message_id = []; sender_id = []; content = [] }) b

  unfoldable pub mentions_to_json : Bytes → Bytes
  unfolding mention_items mention_json array
  mentions_to_json b = marshal mention_json (mention_items b)

  unfoldable pub attachments_to_json : Bytes → Bytes
  unfolding attachment_items attachment_json array
  attachments_to_json b = marshal attachment_json (attachment_items b)

  unfoldable pub refs_to_json : Bytes → Bytes
  unfolding ref_items ref_json array
  refs_to_json b = marshal ref_json (ref_items b)

  -- The two switches of decodeChannelMessageFields.
  unfoldable pub set_text : ℕ → Bytes → Message → Message
  unfolding mentions_to_json attachments_to_json refs_to_json
  set_text num v msg =
      if num == 6
      then record msg { username = v }
      else if num == 7
      then record msg { avatar = v }
      else if num == 8
      then record msg { content = v }
      else if num == 9
      then record msg { channel_label = v }
      else if num == 12
      then record msg { display_name = v }
      else if num == 13
      then record msg { clan_nick = v }
      else if num == 16
      then record msg { mentions = mentions_to_json v }
      else if num == 17
      then record msg { attachments = attachments_to_json v }
      else if num == 18
      then record msg { references = refs_to_json v }
      else msg

  unfoldable pub set_varint : ℕ → ℕ → Message → Message
  unfolding format_uint
  set_varint num v msg =
      if num == 1
      then record msg { clan_id = format_uint v }
      else if num == 2
      then record msg { channel_id = format_uint v }
      else if num == 3
      then record msg { message_id = format_uint v }
      else if num == 5
      then record msg { sender_id = format_uint v }
      else if num == 22
      then record msg { mode = int32 v }
      else if num == 24
      then record msg { is_public = not (v == 0) }
      else msg
