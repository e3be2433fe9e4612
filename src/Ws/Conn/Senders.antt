-- ===== src/Ws/Conn/Senders.antt =====
-- lib/ws/conn.go: the senders of a Conn that wait for no reply.
use mezon_go_sdk_turbo.Prelude.{ℕ, String, Bool, false, [], Option, Bytes}
use mezon_go_sdk_turbo.Proto.{ProtoWire}
use mezon_go_sdk_turbo.Ws.Wire.{
  Ref, SendOpts, build_typing_envelope, build_reaction_envelope, build_sticker_envelope,
  build_ping_envelope_with_cid,
}
use mezon_go_sdk_turbo.Ws.Post.{build_send_envelope}
use mezon_go_sdk_turbo.Ws.Conn.{Wire, Failure, next_cid, send, send_built}

module _ ⦃w : ProtoWire⦄ {W : Type 0} (write : Bytes → W → Option String × W) where
  unfoldable pub send_text_opts :
      Bytes → Bytes → ℕ → Bool → Bytes → SendOpts → Wire W → Option Failure × Wire W
  unfolding send build_send_envelope
  send_text_opts channel_id clan_id mode is_public text opts x =
      send_built write (build_send_envelope channel_id clan_id mode is_public text opts) x

  unfoldable pub send_text :
      Bytes → Bytes → ℕ → Bool → Bytes → Option Ref → Wire W → Option Failure × Wire W
  unfolding send_text_opts
  send_text channel_id clan_id mode is_public text ref x =
      send_text_opts channel_id clan_id mode is_public text
        (record { ref = ref; mentions = []; mention_everyone = false }) x

  unfoldable pub send_typing :
      Bytes → Bytes → Bytes → Bytes → Bytes → ℕ → Bool → Wire W → Option Failure × Wire W
  unfolding send
  send_typing channel_id clan_id sender_id username display_name mode is_public x =
      send write
        (build_typing_envelope channel_id clan_id sender_id username display_name mode is_public) x

  unfoldable pub send_reaction :
      Bytes → Bytes → Bytes → Bytes → Bytes → Bool → ℕ → Bool → Wire W → Option Failure × Wire W
  unfolding send
  send_reaction clan_id channel_id message_id emoji_id emoji action mode is_public x =
      send write
        (build_reaction_envelope clan_id channel_id message_id emoji_id emoji action mode is_public)
        x

  unfoldable pub send_sticker :
      Bytes → Bytes → ℕ → Bool → Bytes → Bytes → Wire W → Option Failure × Wire W
  unfolding send
  send_sticker channel_id clan_id mode is_public shortcode url x =
      send write (build_sticker_envelope channel_id clan_id mode is_public shortcode url) x

  unfoldable pub ping : Wire W → Option Failure × Wire W
  unfolding next_cid send
  ping x =
      let cid = next_cid x.conn in
      send write (build_ping_envelope_with_cid cid)
        (record x { conn = record x.conn { ping_cid = cid } })
