-- ===== src/Ws/Conn/Tests.antt =====
-- lib/ws/conn.go on a connection whose writes succeed, and are noted.
use mezon_go_sdk_turbo.Prelude.{
  ◌≡◌, refl, String, true, false, List, [], ◌∷◌, Option, none, Bytes, arith, ascii, inl,
}
use mezon_go_sdk_turbo.Ws.Leb.{leb_wire, leb_wire-IsProtoWire}
use mezon_go_sdk_turbo.Ws.Wire.{SendOpts, id}
use mezon_go_sdk_turbo.Ws.Acks.{ack_frame}
use mezon_go_sdk_turbo.Ws.Posted.{build_send_envelope-IsSent}
use mezon_go_sdk_turbo.Ws.Conn.{Conn, Wire, next_cid, pending_of, begin_request, receive}
use mezon_go_sdk_turbo.Ws.Conn.Acked.{request, send_text_ack}
use mezon_go_sdk_turbo.Ws.Conn.Requests.{now, then_step, receives}
use mezon_go_sdk_turbo.Ws.Conn.Own.{IsOwn, request-IsOwn}
use mezon_go_sdk_turbo.Ws.Conn.Delivered.{send_text_ack-ack_frame}

abbrev idle : Conn
idle = record { bot_user_id = ascii "1"; closed = false; ping_cid = 0; pending = []; joined = [] }

abbrev wire : Wire (List Bytes)
wire = record { conn = idle; far = [] }

abbrev noted : Bytes → List Bytes → Option String × List Bytes
noted b far = (none, b ∷ far)

-- While the request waits, the reply to it is read.
abbrev reads : Wire (List Bytes) → Wire (List Bytes)
reads y = record y { conn = (receive (ack_frame 1 7 42) y.conn).0 }

request-IsOwn_example :
    IsOwn 1 (request noted reads false (ascii "x") wire).0
    × (pending_of 1 (request noted reads false (ascii "x") wire).1.conn.pending ≡ none)
unfolding next_cid
request-IsOwn_example =
    request-IsOwn noted reads false (ascii "x") wire (omega arith)
      (λ y. then_step now (receives (ack_frame 1 7 42)) tt)

abbrev plain : SendOpts
plain = record { ref = none; mentions = []; mention_everyone = false }

send_text_ack-ack_frame_example :
    (s : Bytes) × (((send_text_ack noted reads false
          (ascii "2")
          (ascii "1")
          4
          true
          (ascii "hi")
          plain
          wire).0
        ≡ inl s)
      × (id s ≡ 42))
unfolding next_cid begin_request pending_of
send_text_ack-ack_frame_example =
    let (blob, (env, (content, built, sent))) =
      build_send_envelope-IsSent leb_wire-IsProtoWire (ascii "2") (ascii "1") 4 true (ascii "hi")
        plain in
    send_text_ack-ack_frame leb_wire-IsProtoWire noted (ascii "2") (ascii "1") 4 true (ascii "hi")
      plain env reads wire _ (begin_request idle) 1 7 42 built (omega arith) refl refl refl now refl
      now (omega arith) (omega arith) (omega arith)
