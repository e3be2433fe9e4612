-- ===== src/Ws/Conn.antt =====
-- lib/ws/conn.go: a connection. `W` is the state of what lies behind the socket, and `write` is
-- WriteMessage of github.com/gorilla/websocket with a binary message. The frames that are read are
-- arguments. A method holds a lock while it changes the state, so each function here is one critical
-- section or a sequence of them.
pub mod Senders
pub mod Acked
pub mod Requests
pub mod Own
pub mod Delivered
mod Tests
use mezon_go_sdk_turbo.Prelude.{
  ℕ, ◌+◌, ◌%◌, ◌^◌, ◌==◌, String, Bool, true, false, not, ◌&&◌, ◌||◌, List, [], ◌∷◌, Option, none,
  some, Bytes, bytes_eq, is_empty, if◌then◌else◌, ◌⊎◌, inl, inr,
}
use mezon_go_sdk_turbo.Types.{Message}
use mezon_go_sdk_turbo.Proto.{ProtoWire}
use mezon_go_sdk_turbo.Ws.Wire.{
  Ref, SendOpts, build_clan_join_envelope, build_typing_envelope, build_reaction_envelope,
  build_sticker_envelope, build_ping_envelope_with_cid,
}
use mezon_go_sdk_turbo.Ws.Ack.{Ack, decode_ack, with_cid}
use mezon_go_sdk_turbo.Ws.Channel.{decode_channel_message}
use mezon_go_sdk_turbo.Ws.Post.{build_send_envelope, build_update_envelope}

-- `pending` maps the cid of a request to what its channel, of one place, holds.
pub record Conn : Type 0 where
  pub bot_user_id : Bytes
  pub closed : Bool
  pub ping_cid : ℕ
  pub pending : List (ℕ × Option Ack)
  pub joined : List Bytes

pub data Failure : Type 0 where
  close_sent no_ack rejected panicked : Failure
  write_failed : String → Failure

-- A Conn and what lies behind its socket.
pub record Wire (W : Type 0) : Type 0 where
  pub conn : Conn
  pub far : W

-- `c.pingCid.Add(1)`
unfoldable pub next_cid : Conn → ℕ
next_cid c = (c.ping_cid + 1) % 2 ^ 64

-- `c.pending[cid]`, `c.pending[cid] = ch`, and `delete(c.pending, cid)`.
unfoldable pub pending_of : ℕ → List (ℕ × Option Ack) → Option (Option Ack)
pending_of cid [] = none
pending_of cid ((k, a) ∷ ps) = if k == cid then some a else pending_of cid ps

unfoldable pub without_cid : ℕ → List (ℕ × Option Ack) → List (ℕ × Option Ack)
without_cid cid [] = []
without_cid cid ((k, a) ∷ ps) =
    let rest = without_cid cid ps in if k == cid then rest else (k, a) ∷ rest

unfoldable pub begin_request : Conn → Conn
unfolding next_cid without_cid
begin_request c =
    let cid = next_cid c in
    record c { ping_cid = cid; pending = (cid, none) ∷ without_cid cid c.pending }

unfoldable pub end_request : ℕ → Conn → Conn
unfolding without_cid
end_request cid c = record c { pending = without_cid cid c.pending }

-- A send on a channel of one place, which drops the value where the place is taken.
abbrev offered : Ack → Option Ack → Option Ack
offered a none = some a
offered a (some b) = some b

-- `resolve`
abbrev pub resolved : Ack → List (ℕ × Option Ack) → List (ℕ × Option Ack)
resolved a [] = []
resolved a ((k, b) ∷ ps) = if k == a.cid then (k, offered a b) ∷ ps else (k, b) ∷ resolved a ps

unfoldable pub resolve : Ack → Conn → Conn
resolve a c = record c { pending = resolved a c.pending }

-- `len(c.pending) > 0`
abbrev pub has_pending : List (ℕ × Option Ack) → Bool
has_pending [] = false
has_pending (p ∷ ps) = true

-- `c.joined[clanID]`
abbrev joins : List Bytes → Bytes → Bool
joins [] id = false
joins (j ∷ js) id = bytes_eq j id || joins js id

unfoldable pub has_joined : Bytes → Conn → Bool
has_joined id c = joins c.joined id

-- The body of the select of `request`, on the channel of the cid, where a timeout may win.
unfoldable pub answer_of : Option (Option Ack) → Bool → Ack ⊎ (Failure × Ack)
answer_of none late = inr (no_ack, record { cid = 0; message_id = []; err = false })
answer_of (some none) late = inr (no_ack, record { cid = 0; message_id = []; err = false })
answer_of (some (some a)) late =
    if late
    then inr (no_ack, record { cid = 0; message_id = []; err = false })
    else if a.err
    then inr (rejected, a)
    else inl a

-- `Close`, which closes the socket too.
unfoldable pub close : Conn → Conn
close c = record c { closed = true }

module _ ⦃w : ProtoWire⦄ where
  -- A message that DecodeChannelMessage gives, and that the bot did not send itself.
  abbrev emitted : Bytes → Message × (Bool × Option String) → Option Message
  emitted bot (msg, (ok, some e)) = none
  emitted bot (msg, (false, none)) = none
  emitted bot (msg, (true, none)) = if bytes_eq msg.sender_id bot then none else some msg

  -- A frame in the read loop: the Conn, and the message that is emitted.
  unfoldable pub receive : Bytes → Conn → Conn × Option Message
  unfolding resolve
  receive frame c =
      let (a, ok) = decode_ack frame in
      if has_pending c.pending && ok
      then (resolve a c, none)
      else (c, emitted c.bot_user_id (decode_channel_message frame))

  -- The read loop on the frames that come before the read fails.
  unfoldable pub read_loop : List Bytes → Conn → Conn × List Message
  unfolding receive
  read_loop [] c = (record c { closed = true }, [])
  read_loop (frame ∷ frames) c =
      let r = receive frame c in
      let rest = read_loop frames r.0 in (rest.0, elim r.1 [ none ↦ rest.1 | some m ↦ m ∷ rest.1 ])

  module _ {W : Type 0} (write : Bytes → W → Option String × W) where
    abbrev written : Conn → Option String × W → Option Failure × Wire W
    written c (none, far) = (none, record { conn = c; far = far })
    written c (some e, far) = (some (write_failed e), record { conn = c; far = far })

    unfoldable pub send : Bytes → Wire W → Option Failure × Wire W
    send env x = if x.conn.closed then (some close_sent, x) else written x.conn (write env x.far)

    -- An envelope with a text, whose builder may panic.
    abbrev pub send_built : Option Bytes → Wire W → Option Failure × Wire W
    send_built none x = (some panicked, x)
    send_built (some env) x = send env x

    abbrev after_join : Bytes → Option Failure × Wire W → Option Failure × Wire W
    after_join id (some e, x) = (some e, x)
    after_join id (none, x) =
        (none, record x { conn = record x.conn { joined = id ∷ x.conn.joined } })

    unfoldable pub join_clan : Bytes → Wire W → Option Failure × Wire W
    unfolding has_joined send
    join_clan id x =
        if has_joined id x.conn
        then (none, x)
        else after_join id (send (build_clan_join_envelope id) x)

    -- The clans that Dial joins, whose errors it drops.
    unfoldable pub join_all : List Bytes → Wire W → Wire W
    unfolding join_clan
    join_all [] x = x
    join_all (id ∷ ids) x = join_all ids (join_clan id x).1

    -- Dial after the handshake, without the read loop that it starts.
    unfoldable pub dialed : Bytes → List Bytes → W → Wire W
    unfolding join_all
    dialed bot clan_ids far = join_all clan_ids (record {
      conn = record { bot_user_id = bot; closed = false; ping_cid = 0; pending = []; joined = [] };
      far = far;
    })
