-- ===== src/Ws/Wire.antt =====
-- lib/ws/wire.go: the outgoing envelopes. An int32 is its bit pattern below 2 ^ 32.
use mezon_go_sdk_turbo.Prelude.{
  ℕ, ◌%◌, ◌^◌, ◌==◌, Bool, List, [], ◌∷◌, ◌++◌, Option, none, some, Bytes, is_empty, parse_uint,
  value_of, if◌then◌else◌,
}
use mezon_go_sdk_turbo.Proto.{ProtoWire, varint_type, bytes_type}

-- The field numbers of the Envelope.
abbrev pub env_clan_join : ℕ
env_clan_join = 3

abbrev pub env_channel_message_send : ℕ
env_channel_message_send = 8

abbrev pub env_error : ℕ
env_error = 12

abbrev pub env_ping : ℕ
env_ping = 22

abbrev pub env_typing : ℕ
env_typing = 24

abbrev pub env_message_reaction_event : ℕ
env_message_reaction_event = 26

pub record Mention : Type 0 where
  pub user_id : Bytes
  pub s : ℕ
  pub e : ℕ

pub record Ref : Type 0 where
  pub ref_message_id : Bytes
  pub sender_id : Bytes
  pub sender_username : Bytes
  pub sender_avatar : Bytes
  pub content : Bytes

-- A nil `Ref` is `none`.
pub record SendOpts : Type 0 where
  pub ref : Option Ref
  pub mentions : List Mention
  pub mention_everyone : Bool

unfoldable pub id : Bytes → ℕ
id s = value_of (parse_uint s)

-- `uint64(uint32(v))`
abbrev pub uint32 : ℕ → ℕ
uint32 v = v % 2 ^ 32

module _ ⦃w : ProtoWire⦄ where
  unfoldable pub append_varint_field : Bytes → ℕ → ℕ → Bytes
  append_varint_field b num v =
      if v == 0 then b else w.append_varint (w.append_tag b num varint_type) v

  unfoldable pub append_string_field : Bytes → ℕ → Bytes → Bytes
  append_string_field b num v =
      if is_empty v then b else w.append_bytes (w.append_tag b num bytes_type) v

  unfoldable pub append_message_field : Bytes → ℕ → Bytes → Bytes
  append_message_field b num msg = w.append_bytes (w.append_tag b num bytes_type) msg

  -- `if set { b = appendVarintField(b, num, 1) }`
  unfoldable pub append_flag : Bytes → ℕ → Bool → Bytes
  append_flag b num set = if set then append_varint_field b num 1 else b

  -- The MessageMention and the MessageRef of BuildSendEnvelopeRaw.
  unfoldable pub mention_bytes : Mention → Bytes
  mention_bytes m =
      let b = append_varint_field [] 2 (id m.user_id) in
      let b = append_varint_field b 7 (uint32 m.s) in append_varint_field b 8 (uint32 m.e)

  unfoldable pub ref_bytes : Ref → Bytes
  ref_bytes r =
      let b = append_varint_field [] 2 (id r.ref_message_id) in
      let b = append_string_field b 3 r.content in
      let b = append_varint_field b 6 (id r.sender_id) in
      let b = append_string_field b 7 r.sender_username in append_string_field b 8 r.sender_avatar

  unfoldable pub append_mentions : Bytes → List Mention → Bytes
  unfolding mention_bytes
  append_mentions b [] = b
  append_mentions b (m ∷ ms) = append_mentions (append_message_field b 4 (mention_bytes m)) ms

  unfoldable pub append_ref : Bytes → Option Ref → Bytes
  unfolding ref_bytes
  append_ref b none = b
  append_ref b (some r) = append_message_field b 6 (ref_bytes r)

  -- `msg` of BuildSendEnvelopeRaw.
  unfoldable pub send_bytes : Bytes → Bytes → ℕ → Bool → Bytes → SendOpts → Bytes
  unfolding append_mentions append_ref append_flag
  send_bytes channel_id clan_id mode is_public content opts =
      let msg = append_varint_field [] 1 (id clan_id) in
      let msg = append_varint_field msg 2 (id channel_id) in
      let msg = append_string_field msg 3 content in
      let msg = append_mentions msg opts.mentions in
      let msg = append_ref msg opts.ref in
      let msg = append_varint_field msg 7 (uint32 mode) in
      let msg = append_flag msg 9 opts.mention_everyone in append_flag msg 11 is_public

  unfoldable pub build_send_envelope_raw : Bytes → Bytes → ℕ → Bool → Bytes → SendOpts → Bytes
  unfolding send_bytes
  build_send_envelope_raw channel_id clan_id mode is_public content opts =
      append_message_field [] env_channel_message_send
        (send_bytes channel_id clan_id mode is_public content opts)

  unfoldable pub build_clan_join_envelope : Bytes → Bytes
  build_clan_join_envelope clan_id =
      append_message_field [] env_clan_join (append_varint_field [] 1 (id clan_id))

  unfoldable pub typing_bytes : Bytes → Bytes → Bytes → Bytes → Bytes → ℕ → Bool → Bytes
  unfolding append_flag
  typing_bytes channel_id clan_id sender_id sender_username sender_display_name mode is_public =
      let display_name =
        if is_empty sender_display_name then sender_username else sender_display_name in
      let msg = append_varint_field [] 1 (id clan_id) in
      let msg = append_varint_field msg 2 (id channel_id) in
      let msg = append_varint_field msg 3 (id sender_id) in
      let msg = append_varint_field msg 4 (uint32 mode) in
      let msg = append_flag msg 5 is_public in
      let msg = append_string_field msg 6 sender_username in append_string_field msg 7 display_name

  unfoldable pub build_typing_envelope : Bytes → Bytes → Bytes → Bytes → Bytes → ℕ → Bool → Bytes
  unfolding typing_bytes
  build_typing_envelope channel_id clan_id sender_id sender_username sender_display_name mode
        is_public =
      append_message_field [] env_typing (
        typing_bytes channel_id clan_id sender_id sender_username sender_display_name mode
          is_public)

  unfoldable pub reaction_bytes : Bytes → Bytes → Bytes → Bytes → Bytes → Bool → ℕ → Bool → Bytes
  unfolding append_flag
  reaction_bytes clan_id channel_id message_id emoji_id emoji action mode is_public =
      let msg = if is_empty emoji_id then [] else append_varint_field [] 2 (id emoji_id) in
      let msg = append_string_field msg 3 emoji in
      let msg = append_flag msg 7 action in
      let msg = append_varint_field msg 9 (id channel_id) in
      let msg = append_varint_field msg 10 (id message_id) in
      let msg = append_varint_field msg 11 (id clan_id) in
      let msg = append_varint_field msg 12 (uint32 mode) in append_flag msg 14 is_public

  unfoldable pub build_reaction_envelope :
      Bytes → Bytes → Bytes → Bytes → Bytes → Bool → ℕ → Bool → Bytes
  unfolding reaction_bytes
  build_reaction_envelope clan_id channel_id message_id emoji_id emoji action mode is_public =
      append_message_field [] env_message_reaction_event
        (reaction_bytes clan_id channel_id message_id emoji_id emoji action mode is_public)

  -- "sticker"
  abbrev pub sticker : Bytes
  sticker = 115 ∷ 116 ∷ 105 ∷ 99 ∷ 107 ∷ 101 ∷ 114 ∷ []

  unfoldable pub sticker_bytes : Bytes → Bytes → ℕ → Bool → Bytes → Bytes → Bytes
  unfolding append_flag
  sticker_bytes channel_id clan_id mode is_public shortcode url =
      let att = append_string_field [] 1 shortcode in
      let att = append_string_field att 3 url in
      let att = append_string_field att 4 sticker in
      let msg = append_varint_field [] 1 (id clan_id) in
      let msg = append_varint_field msg 2 (id channel_id) in
      let msg = append_message_field msg 5 att in
      let msg = append_varint_field msg 7 (uint32 mode) in append_flag msg 11 is_public

  unfoldable pub build_sticker_envelope : Bytes → Bytes → ℕ → Bool → Bytes → Bytes → Bytes
  unfolding sticker_bytes
  build_sticker_envelope channel_id clan_id mode is_public shortcode url =
      append_message_field [] env_channel_message_send
        (sticker_bytes channel_id clan_id mode is_public shortcode url)

  unfoldable pub build_ping_envelope : Bytes
  build_ping_envelope = append_message_field [] env_ping []

  unfoldable pub build_ping_envelope_with_cid : ℕ → Bytes
  build_ping_envelope_with_cid cid =
      append_varint_field [] 1 cid ++ append_message_field [] env_ping []
