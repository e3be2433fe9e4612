-- ===== src/Ws/Conn/Delivered.antt =====
-- lib/ws/conn.go: what SendTextAck answers when the server acknowledges a message.
use mezon_go_sdk_turbo.Prelude.{
  ℕ, ◌+◌, ◌^◌, ◌≤◌, ◌<◌, ◌≡◌, refl, sym, ap, subst, ◌∙◌, ◌⊎◌, inl, String, Bool, false, [], ◌∷◌,
  Option, none, some, Bytes, IsU64, is_empty, parse_uint, arith,
}
use mezon_go_sdk_turbo.Proto.{ProtoWire, IsProtoWire}
use mezon_go_sdk_turbo.Ws.Wire.{SendOpts, id}
use mezon_go_sdk_turbo.Ws.Ack.{Ack, decode_ack, with_cid}
use mezon_go_sdk_turbo.Ws.Acks.{ack_frame, decode_ack-ack_frame}
use mezon_go_sdk_turbo.Ws.Post.{build_send_envelope}
use mezon_go_sdk_turbo.Ws.Conn.{Conn, Wire, Failure, next_cid, pending_of, begin_request, receive}
use mezon_go_sdk_turbo.Ws.Conn.Acked.{request, id_of, send_text_ack}
use mezon_go_sdk_turbo.Ws.Conn.Requests.{Others}
use mezon_go_sdk_turbo.Ws.Conn.Own.{reply, request-reply}

module _ ⦃w : ProtoWire⦄ {W : Type 0} (write : Bytes → W → Option String × W) where
  id_of-reply :
      (a : Ack) (r : (Ack ⊎ (Failure × Ack)) × Wire W)
      → r.0 ≡ reply a
      → a.err ≡ false
      → is_empty a.message_id ≡ false
      → (id_of write r).0 ≡ inl a.message_id
  id_of-reply a (v, x) e ok shown = ground (arith, e, ok, shown)

some_id : (s : Bytes) (v : ℕ) → id s ≡ v → 1 ≤ v → is_empty s ≡ false
unfolding id parse_uint
some_id [] v e l = absurd (omega (arith, e))
some_id (c ∷ s) v e l = refl

module _ ⦃w : ProtoWire⦄ (laws : IsProtoWire w) {W : Type 0}
    (write : Bytes → W → Option String × W) where
  -- SendTextAck, on an open connection whose write succeeds, answers the id of the message where
  -- the first reply to its cid is the acknowledgement of the server and is there in time.
  pub send_text_ack-ack_frame :
      (channel_id clan_id : Bytes) (mode : ℕ) (is_public : Bool) (text : Bytes) (opts : SendOpts)
      (env : Bytes) (wait : Wire W → Wire W) (x : Wire W) (far : W) (c : Conn)
      (cid channel message : ℕ)
      → build_send_envelope channel_id clan_id mode is_public text opts ≡ some env
      → x.conn.ping_cid + 1 < 2 ^ 64
      → x.conn.closed ≡ false
      → cid ≡ next_cid x.conn
      → write (with_cid cid env) x.far ≡ (none, far)
      → Others cid (begin_request x.conn) c
      → pending_of cid c.pending ≡ some none
      → Others cid
          (receive (ack_frame cid channel message) c).0
          (wait (record { conn = begin_request x.conn; far = far })).conn
      → IsU64 channel
      → IsU64 message
      → 1 ≤ message
      → (s : Bytes) × (((send_text_ack write wait false channel_id clan_id mode is_public text opts
              x).0
            ≡ inl s)
          × (id s ≡ message))
  unfolding send_text_ack
  send_text_ack-ack_frame channel_id clan_id mode is_public text opts env wait x far c cid channel
        message built l up mine wrote before waits after uc um lm =
      let frame = ack_frame cid channel message in
      let a = (decode_ack frame).0 in
      let cid_in : IsU64 cid = unfold next_cid in (omega (arith, mine, l)) in
      let cid_pos : 1 ≤ cid = unfold next_cid in (omega (arith, mine, l)) in
      let ((own, given), (ok, is_reply)) =
        decode_ack-ack_frame laws cid channel message cid_pos cid_in uc um in
      let back : cid ≡ a.cid = sym own in
      let answered =
        request-reply write wait env x far c frame a l up
          (subst (λ k. write (with_cid k env) x.far ≡ (none, far)) back wrote) (own ∙ mine)
          (subst (λ k. Others k (begin_request x.conn) c) back before)
          (subst (λ k. pending_of k c.pending ≡ some none) back waits)
          (ap (λ (b : Bool). (a, b)) is_reply)
          (subst
            (λ k.
              Others k (receive frame c).0
                (wait (record { conn = begin_request x.conn; far = far })).conn)
            back after) in
      (
        a.message_id,
        (
          rw (built, send_text_ack)
              (id_of-reply write a (request write wait false env x) answered ok
                (some_id a.message_id message given lm)),
          given,
        ),
      )
