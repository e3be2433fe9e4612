-- ===== src/Ws/Conn/Acked.antt =====
-- lib/ws/conn.go: `request`, and the senders that wait for a reply.
use mezon_go_sdk_turbo.Prelude.{
  ℕ, String, Bool, false, [], Option, none, some, Bytes, is_empty, if◌then◌else◌, ◌⊎◌, inl, inr,
}
use mezon_go_sdk_turbo.Proto.{ProtoWire}
use mezon_go_sdk_turbo.Ws.Wire.{SendOpts}
use mezon_go_sdk_turbo.Ws.Ack.{Ack, with_cid}
use mezon_go_sdk_turbo.Ws.Post.{build_send_envelope, build_update_envelope}
use mezon_go_sdk_turbo.Ws.Conn.{
  Wire, Failure, panicked, no_ack, next_cid, pending_of, begin_request, end_request, answer_of,
  send,
}

module _ ⦃w : ProtoWire⦄ {W : Type 0} (write : Bytes → W → Option String × W) where
  -- The rest of `request` after its send: what other goroutines do with the Conn while it waits,
  -- and whether the timeout wins over an answer that is there.
  abbrev pub awaited :
      (Wire W → Wire W) → Bool → ℕ → Option Failure × Wire W → (Ack ⊎ (Failure × Ack)) × Wire W
  awaited wait late cid (some e, x) = (
    inr (e, record { cid = 0; message_id = []; err = false }),
    record x { conn = end_request cid x.conn },
  )
  awaited wait late cid (none, x) =
      let y = wait x in
      (answer_of (pending_of cid y.conn.pending) late, record y { conn = end_request cid y.conn })

  unfoldable pub request :
      (Wire W → Wire W) → Bool → Bytes → Wire W → (Ack ⊎ (Failure × Ack)) × Wire W
  request wait late env x =
      let cid = next_cid x.conn in
      awaited wait late cid
        (send write (with_cid cid env) (record x { conn = begin_request x.conn }))

  -- The id of the new message, or why there is none.
  abbrev pub id_of : (Ack ⊎ (Failure × Ack)) × Wire W → (Bytes ⊎ Failure) × Wire W
  id_of (inr (e, a), x) = (inr e, x)
  id_of (inl a, x) = (if is_empty a.message_id then inr no_ack else inl a.message_id, x)

  unfoldable pub send_text_ack :
      (Wire W → Wire W)
      → Bool
      → Bytes
      → Bytes
      → ℕ
      → Bool
      → Bytes
      → SendOpts
      → Wire W
      → (Bytes ⊎ Failure) × Wire W
  unfolding request build_send_envelope
  send_text_ack wait late channel_id clan_id mode is_public text opts x =
      elim (build_send_envelope channel_id clan_id mode is_public text opts) [
        | none ↦ (inr panicked, x)
        | some env ↦ id_of (request wait late env x)
      ]

  abbrev pub failure_of : (Ack ⊎ (Failure × Ack)) × Wire W → Option Failure × Wire W
  failure_of (inr (e, a), x) = (some e, x)
  failure_of (inl a, x) = (none, x)

  unfoldable pub update_text :
      (Wire W → Wire W)
      → Bool
      → Bytes
      → Bytes
      → Bytes
      → ℕ
      → Bool
      → Bytes
      → Wire W
      → Option Failure × Wire W
  unfolding request build_update_envelope
  update_text wait late channel_id clan_id message_id mode is_public text x =
      elim (build_update_envelope channel_id clan_id message_id mode is_public text) [
        | none ↦ (some panicked, x)
        | some env ↦ failure_of (request wait late env x)
      ]
