-- ===== src/Ws/Acks.antt =====
-- lib/ws/ack.go: the replies of the server that carry the id of a message.
use mezon_go_sdk_turbo.Prelude.{
  ℕ, ◌≤◌, ◌==◌, ◌≡◌, refl, ◌∙◌, inl, inr, Bool, true, false, List, [], ◌∷◌, ◌++◌, arith, Bytes,
  IsU64, parse_uint, value_of, format_uint, parse_uint-format_uint, if◌then◌else◌, Bool-cases,
}
use mezon_go_sdk_turbo.Proto.{ProtoWire, IsProtoWire}
use mezon_go_sdk_turbo.Ws.Wire.{id, append_message_field}
use mezon_go_sdk_turbo.Ws.Walk.{walk_varints}
use mezon_go_sdk_turbo.Ws.Fields.{varint_field, visit_field, visit_all}
use mezon_go_sdk_turbo.Ws.Parts.{Part, number, messages, append_parts, walk_varints-append_parts}
use mezon_go_sdk_turbo.Ws.Ack.{
  env_channel_message_ack, set_cid, visit_ack, visit_reply, decode_ack, with_cid,
}
use mezon_go_sdk_turbo.Ws.View.{number-IsPart}
use mezon_go_sdk_turbo.Ws.Replies.{decode_ack-append_parts}
use mezon_go_sdk_turbo.Ws.Requests.{with_cid-message, message-IsPart}

module _ ⦃w : ProtoWire⦄ where
  -- The ids of a ChannelMessageAck, and of a reply to `cid` that carries one.
  abbrev pub ack_parts : ℕ → ℕ → List Part
  ack_parts channel message = number 1 channel ∷ number 2 message ∷ []

  unfoldable pub ack_frame : ℕ → ℕ → ℕ → Bytes
  ack_frame cid channel message = with_cid cid (
      append_message_field [] env_channel_message_ack (append_parts [] (ack_parts channel message)))

empty_id : value_of (parse_uint []) ≡ 0
unfolding parse_uint
empty_id = refl

id_shown : (v : ℕ) → IsU64 v → id (if v == 0 then [] else format_uint v) ≡ v
unfolding id
id_shown v u = elim (Bool-cases (v == 0)) [
  | inl zero_id ↦ rw zero_id (empty_id ∙ ground (arith, zero_id))
  | inr set ↦ rw (set, parse_uint-format_uint v u) refl
]

module _ ⦃w : ProtoWire⦄ (laws : IsProtoWire w) where
  last_id :
      (empty : Bool) (message : ℕ)
      → visit_all
          (visit_field visit_ack)
          ((if empty then [] else varint_field 2 message ∷ []) ++ [])
          []
        ≡ (if empty then [] else format_uint message)
  unfolding visit_ack
  last_id true message = refl
  last_id false message = refl

  message_of_ack :
      (channel message : ℕ)
      → IsU64 channel
      → IsU64 message
      → walk_varints (append_parts [] (ack_parts channel message)) visit_ack []
        ≡ (if message == 0 then [] else format_uint message)
  unfolding visit_ack
  message_of_ack channel message uc um =
      rw
        (walk_varints-append_parts laws (ack_parts channel message) visit_ack [] (
          number-IsPart 1 channel (omega arith) (omega arith) uc,
          (number-IsPart 2 message (omega arith) (omega arith) um, tt),
        ))
        (elim (Bool-cases (channel == 0)) [
          | inl none_set ↦ rw none_set (last_id (message == 0) message)
          | inr set ↦ rw set (last_id (message == 0) message)
        ])

  ack_frame-reply :
      (cid channel message : ℕ)
      → 1 ≤ cid
      → IsU64 cid
      → IsU64 channel
      → IsU64 message
      → decode_ack (ack_frame cid channel message) ≡ (
        record {
          cid = cid;
          message_id = if message == 0 then [] else format_uint message;
          err = false;
        },
        true,
      )
  unfolding ack_frame visit_reply set_cid
  ack_frame-reply cid channel message l u uc um =
      let sub = append_parts [] (ack_parts channel message) in
      let ps = number 1 cid ∷ messages env_channel_message_ack (sub ∷ []) ∷ [] in
      let set : (cid == 0) ≡ false = ground arith in
      rw
        (
          with_cid-message laws cid env_channel_message_ack sub,
          decode_ack-append_parts laws ps
              (message-IsPart laws cid env_channel_message_ack sub u (omega arith) (omega arith)),
          set,
          message_of_ack channel message uc um,
        )
        refl

  -- A reply with a cid other than 0 and the id of a message is a reply to that cid without an error,
  -- and the string that DecodeAck gives for the id is sent as that id again.
  pub decode_ack-ack_frame :
      (cid channel message : ℕ)
      → 1 ≤ cid
      → IsU64 cid
      → IsU64 channel
      → IsU64 message
      → (((decode_ack (ack_frame cid channel message)).0.cid ≡ cid)
          × (id (decode_ack (ack_frame cid channel message)).0.message_id ≡ message))
        × (((decode_ack (ack_frame cid channel message)).0.err ≡ false)
            × ((decode_ack (ack_frame cid channel message)).1 ≡ true))
  decode_ack-ack_frame cid channel message l u uc um =
      rw (ack_frame-reply cid channel message l u uc um) ((refl, id_shown message um), (refl, refl))
