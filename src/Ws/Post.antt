-- ===== src/Ws/Post.antt =====
-- lib/ws/wire.go and lib/ws/ack.go: the envelopes of texts, BuildSendEnvelope and
-- BuildUpdateEnvelope. A panic of BuildContent is `none`.
use mezon_go_sdk_turbo.Prelude.{ℕ, Bool, Option, none, some, Bytes, []}
use mezon_go_sdk_turbo.Proto.{ProtoWire}
use mezon_go_sdk_turbo.Ws.Wire.{
  SendOpts, id, uint32, append_varint_field, append_string_field, append_message_field, append_flag,
  build_send_envelope_raw,
}
use mezon_go_sdk_turbo.Ws.Content.{build_content}

abbrev pub env_channel_message_update : ℕ
env_channel_message_update = 9

module _ ⦃w : ProtoWire⦄ where
  unfoldable pub build_send_envelope : Bytes → Bytes → ℕ → Bool → Bytes → SendOpts → Option Bytes
  unfolding build_content
  build_send_envelope channel_id clan_id mode is_public text opts = elim (build_content text) [
    | none ↦ none
    | some content ↦ some (build_send_envelope_raw channel_id clan_id mode is_public content opts)
  ]

  -- `msg` of BuildUpdateEnvelope, with the content blob.
  unfoldable pub update_bytes : Bytes → Bytes → Bytes → ℕ → Bool → Bytes → Bytes
  unfolding append_flag
  update_bytes channel_id clan_id message_id mode is_public content =
      let msg = append_varint_field [] 1 (id clan_id) in
      let msg = append_varint_field msg 2 (id channel_id) in
      let msg = append_varint_field msg 3 (id message_id) in
      let msg = append_string_field msg 4 content in
      let msg = append_varint_field msg 7 (uint32 mode) in
      let msg = append_flag msg 8 is_public in append_varint_field msg 9 1

  unfoldable pub build_update_envelope : Bytes → Bytes → Bytes → ℕ → Bool → Bytes → Option Bytes
  unfolding build_content update_bytes
  build_update_envelope channel_id clan_id message_id mode is_public text =
      elim (build_content text) [
        | none ↦ none
        | some content ↦ some (
            append_message_field [] env_channel_message_update
              (update_bytes channel_id clan_id message_id mode is_public content))
      ]
