-- ===== src/Turbo/Send.antt =====
-- lib/turbo/turbo.go: what the consumer calls to send. The hot socket of the bot is used, or a
-- transient one that is dialed, used and closed. `ssl`
-- is WSSSL of the Config, and `handshake` that of Dial.
use mezon_go_sdk_turbo.Prelude.{
  ℕ, String, Bool, false, not, ◌&&◌, [], ◌⊎◌, inl, inr, Option, none, some, Bytes, if◌then◌else◌,
}
use mezon_go_sdk_turbo.Types.{BotRef, Message, is_dm}
use mezon_go_sdk_turbo.State.{Result, ok, err}
use mezon_go_sdk_turbo.Proto.{ProtoWire}
use mezon_go_sdk_turbo.Rest.Session.{or_else}
use mezon_go_sdk_turbo.Ws.Wire.{Ref, SendOpts}
use mezon_go_sdk_turbo.Ws.Conn.Senders
use mezon_go_sdk_turbo.Ws.Conn.Acked
use mezon_go_sdk_turbo.Ws.Conn.{Wire, Failure, close}
use mezon_go_sdk_turbo.Ws.Dial.{dial}
use mezon_go_sdk_turbo.Turbo.{CachedSession}
use mezon_go_sdk_turbo.Turbo.Session.{Client, Routed, session}
use mezon_go_sdk_turbo.Turbo.Sync.{Host, conn_at}

-- The reference of a reply, with the name that its reader knows the sender by.
unfoldable pub reply_name : Message → Bytes
reply_name m = or_else (or_else m.clan_nick m.display_name) m.username

unfoldable pub reply_ref : Message → Bool → Option Ref
unfolding reply_name
reply_ref m as_reply =
    if as_reply && not (is_dm m)
    then some (record {
      ref_message_id = m.message_id;
      sender_id = m.sender_id;
      sender_username = reply_name m;
      sender_avatar = m.avatar;
      content = m.content;
    })
    else none

abbrev pub opts_of : Option Ref → SendOpts
opts_of ref = record { ref = ref; mentions = []; mention_everyone = false }

-- The names of a typing indicator: the BotRef's, or those of the cached session.
abbrev pub session_names : Option CachedSession → Bytes × Bytes
session_names none = ([], [])
session_names (some c) = (c.username, c.display_name)

-- An action on a Conn through its socket.
abbrev pub Action : Type 0 → Type 0 → Type 0
Action F A = (Bytes → F → Option String × F) → Wire F → A × Wire F

module _ ⦃w : ProtoWire⦄ {F : Type 0} (write : ℕ → Bytes → F → Option String × F) (ssl : Bool)
    (handshake : Bytes → F → Result ℕ × F) where
  abbrev pub on_hot : {A : Type 0} → ℕ → Host F → A × Wire F → (String ⊎ A) × Host F
  on_hot c h (a, x) = (inr a, record h { conns = conn_at h.conns c x.conn; far = x.far })

  -- A transient Conn, at its address, after `fn` and the deferred Close.
  abbrev pub on_transient : {A : Type 0} → ℕ → Host F → A × Wire F → (String ⊎ A) × Host F
  on_transient c h (a, x) =
      (inr a, record h { conns = conn_at h.conns c (close x.conn); far = x.far })

  abbrev pub on_dial :
      {A : Type 0} → Action F A → Host F → Result (ℕ × Wire F) × F → (String ⊎ A) × Host F
  on_dial fn h (err e, s) = (inl e, record h { far = s })
  on_dial fn h (ok (c, x), s) = on_transient c h (fn (write c) x)

  -- The fallback: a transient socket on the session of the bot.
  unfoldable pub on_session :
      {A : Type 0} → Action F A → BotRef → Host F → Routed F → (String ⊎ A) × Host F
  unfolding dial
  on_session fn bot h r =
      on_dial fn (record h { engine = r.engine; far = r.far })
        (dial write handshake r.route.ws_host ssl r.route.token bot.bot_user_id r.route.clan_ids
          r.far)

  module _ (cl : Client F) (bot : BotRef) (now fetched : ℕ) where
    abbrev pub choose : {A : Type 0} → Action F A → Option ℕ → Host F → (String ⊎ A) × Host F
    choose fn none h = on_session fn bot h (session cl bot now fetched h.engine h.far)
    choose fn (some c) h =
        if (h.conns c).closed
        then on_session fn bot h (session cl bot now fetched h.engine h.far)
        else on_hot c h (fn (write c) (record { conn = h.conns c; far = h.far }))

    -- `withConn`, and the same steps in SendTo, SendReaction and SendSticker.
    unfoldable pub with_conn : {A : Type 0} → Action F A → Host F → (String ⊎ A) × Host F
    unfolding on_session session
    with_conn fn h = choose fn (h.engine.hot bot.key_id) h

    unfoldable pub send_to :
        Bytes → Bytes → ℕ → Bool → Bytes → SendOpts → Host F → (String ⊎ Option Failure) × Host F
    unfolding with_conn Senders.send_text_opts
    send_to channel_id clan_id mode is_public text opts h =
        with_conn (λ wr x. Senders.send_text_opts wr channel_id clan_id mode is_public text opts x)
          h

    unfoldable pub reply_to : Message → Bytes → Bool → Host F → (String ⊎ Option Failure) × Host F
    unfolding send_to reply_ref
    reply_to m text as_reply h =
        send_to m.channel_id m.clan_id m.mode m.is_public text (opts_of (reply_ref m as_reply)) h

    module _ (wait : Wire F → Wire F) (late : Bool) where
      unfoldable pub send_to_ack :
          Bytes
          → Bytes
          → ℕ
          → Bool
          → Bytes
          → SendOpts
          → Host F
          → (String ⊎ (Bytes ⊎ Failure)) × Host F
      unfolding with_conn Acked.send_text_ack
      send_to_ack channel_id clan_id mode is_public text opts h =
          with_conn
            (λ wr x. Acked.send_text_ack wr wait late channel_id clan_id mode is_public text opts x)
            h

      unfoldable pub send_ack :
          Message → Bytes → Bool → Host F → (String ⊎ (Bytes ⊎ Failure)) × Host F
      unfolding send_to_ack reply_ref
      send_ack m text as_reply h =
          send_to_ack m.channel_id m.clan_id m.mode m.is_public text
            (opts_of (reply_ref m as_reply)) h

      unfoldable pub update_to :
          Bytes → Bytes → Bytes → ℕ → Bool → Bytes → Host F → (String ⊎ Option Failure) × Host F
      unfolding with_conn Acked.update_text
      update_to channel_id clan_id message_id mode is_public text h =
          with_conn
            (λ wr x.
              Acked.update_text wr wait late channel_id clan_id message_id mode is_public text x)
            h

    unfoldable pub send_reaction :
        Message → Bytes → Bytes → Bool → Host F → (String ⊎ Option Failure) × Host F
    unfolding with_conn Senders.send_reaction
    send_reaction m emoji_id emoji action h =
        with_conn
          (λ wr x.
            Senders.send_reaction wr m.clan_id m.channel_id m.message_id emoji_id emoji action
              m.mode m.is_public x)
          h

    unfoldable pub send_sticker :
        Message → Bytes → Bytes → Host F → (String ⊎ Option Failure) × Host F
    unfolding with_conn Senders.send_sticker
    send_sticker m shortcode url h =
        with_conn
          (λ wr x.
            Senders.send_sticker wr m.channel_id m.clan_id m.mode m.is_public shortcode url x)
          h

  abbrev typed : ℕ → Host F → Option Failure × Wire F → Host F
  typed c h (e, x) = record h { conns = conn_at h.conns c x.conn; far = x.far }

  abbrev type_on : Option ℕ → BotRef → Message → Host F → Host F
  type_on none bot m h = h
  type_on (some c) bot m h =
      if (h.conns c).closed
      then h
      else (let (username, display_name) = session_names (h.engine.sessions bot.key_id) in
          typed c h (
            Senders.send_typing (write c) m.channel_id m.clan_id bot.bot_user_id
              (or_else bot.bot_username username) (or_else bot.bot_display_name display_name) m.mode
              m.is_public (record { conn = h.conns c; far = h.far })))

  -- SendTyping, whose error is dropped.
  unfoldable pub send_typing : BotRef → Message → Host F → Host F
  unfolding Senders.send_typing
  send_typing bot m h = type_on (h.engine.hot bot.key_id) bot m h
