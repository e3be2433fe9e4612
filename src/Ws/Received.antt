-- ===== src/Ws/Received.antt =====
-- lib/ws/decode.go: what DecodeChannelMessage makes of a frame of fields.
use mezon_go_sdk_turbo.Prelude.{
  ℕ, ◌≤◌, ◌==◌, ◌≡◌, ◌≢◌, refl, sym, ap, ◌∙◌, true, false, List, [], ◌∷◌, ◌++◌, String, none, some,
  arith, All, All-of_every, Bytes, drop-append, length, length-append,
}
use mathlib.Core.List.{append-nil}
use mezon_go_sdk_turbo.Types.{Message}
use mezon_go_sdk_turbo.Proto.{ProtoWire, IsProtoWire, failed, varint_type, bytes_type}
use mezon_go_sdk_turbo.Ws.Fields.{
  Field, varint_field, bytes_field, IsField, encode, encode_all, visit_all, length-encode,
  encode-varint, encode-bytes,
}
use mezon_go_sdk_turbo.Ws.Decode.{field_channel_message, set_text, set_varint}
use mezon_go_sdk_turbo.Ws.Channel.{
  zero_message, goes, returns, rounds, message_field, message_round, decode_channel_message_fields,
  frame_field, frame_round, decoded, decoded_bytes, decode_channel_message,
}
use mezon_go_sdk_turbo.Ws.Rounds.{and_false, rounds_return, rounds_done, rounds-encode_all}

module _ ⦃w : ProtoWire⦄ where
  -- What a field of a ChannelMessage does to the message.
  abbrev pub set_field : Field → Message → Message
  set_field (varint_field num v) msg = set_varint num v msg
  set_field (bytes_field num b) msg = set_text num b msg

  -- A field that is no channel_message.
  abbrev pub IsSkipped : Field → Type 0
  IsSkipped (varint_field num v) = Unit {0}
  IsSkipped (bytes_field num b) = num ≢ field_channel_message

module _ ⦃w : ProtoWire⦄ (laws : IsProtoWire w) where
  message_round-encode :
      (f : Field) (rest : Bytes) (msg : Message)
      → IsField f
      → Unit {0}
      → message_round (encode f ++ rest) msg ≡ goes rest (set_field f msg)
  unfolding message_round message_field
  message_round-encode (varint_field num v) rest msg h u =
      rw
        (
          encode-varint laws num v rest,
          laws.read_tag num varint_type (w.append_varint [] v ++ rest) h.0 (omega arith),
          drop-append (w.append_tag [] num varint_type) (w.append_varint [] v ++ rest),
          laws.read_varint v rest h.1,
          drop-append (w.append_varint [] v) rest,
        )
        refl
  message_round-encode (bytes_field num b) rest msg h u =
      rw
        (
          encode-bytes laws num b rest,
          laws.read_tag num bytes_type (w.append_bytes [] b ++ rest) h.0 (omega arith),
          drop-append (w.append_tag [] num bytes_type) (w.append_bytes [] b ++ rest),
          laws.read_bytes b rest,
          drop-append (w.append_bytes [] b) rest,
        )
        refl

  frame_round-encode :
      (f : Field) (rest : Bytes) (u : Unit {0})
      → IsField f
      → IsSkipped f
      → frame_round (encode f ++ rest) u ≡ goes rest tt
  unfolding frame_round frame_field
  frame_round-encode (varint_field num v) rest u h a =
      rw
        (
          encode-varint laws num v rest,
          laws.read_tag num varint_type (w.append_varint [] v ++ rest) h.0 (omega arith),
          drop-append (w.append_tag [] num varint_type) (w.append_varint [] v ++ rest),
          and_false (num == field_channel_message),
          laws.skip_varint num v _ (w.append_varint [] v ++ rest) (laws.read_varint v rest h.1),
          drop-append (w.append_varint [] v) rest,
        )
        refl
  frame_round-encode (bytes_field num b) rest u h a =
      let other : (num == field_channel_message) ≡ false = ground (arith, a) in
      rw
        (
          encode-bytes laws num b rest,
          laws.read_tag num bytes_type (w.append_bytes [] b ++ rest) h.0 (omega arith),
          drop-append (w.append_tag [] num bytes_type) (w.append_bytes [] b ++ rest),
          other,
          laws.skip_bytes num _ b (w.append_bytes [] b ++ rest) (laws.read_bytes b rest),
          drop-append (w.append_bytes [] b) rest,
        )
        refl

  -- The frame after fields that are no channel_message.
  after_skipped :
      (fs : List Field) (rest : Bytes)
      → All IsField fs
      → All IsSkipped fs
      → (left : ℕ) × ((length rest ≤ left)
          × (decode_channel_message (encode_all fs ++ rest)
              ≡ rounds frame_round (λ u. (zero_message, (false, none))) left rest tt))
  unfolding decode_channel_message
  after_skipped fs rest h a =
      let (left, (enough, e)) =
        rounds-encode_all laws frame_round (λ u. (zero_message, (false, none))) (λ f u. tt)
          IsSkipped fs rest _ tt frame_round-encode h a (omega arith) in
      (left, (enough, e))

  decode_channel_message_fields-encode_all :
      (gs : List Field)
      → All IsField gs
      → decode_channel_message_fields (encode_all gs) ≡ (visit_all set_field gs zero_message, none)
  unfolding decode_channel_message_fields
  decode_channel_message_fields-encode_all gs h =
      let whole = append-nil (encode_all gs) in
      let (left, (enough, e)) =
        rounds-encode_all laws message_round (λ msg. (msg, none)) set_field (λ f. Unit {0}) gs []
          (length (encode_all gs)) zero_message message_round-encode h (All-of_every _ (λ f. tt) gs)
          (omega (arith, ap length whole)) in
      ap (λ b. rounds message_round (λ msg. (msg, none)) (length (encode_all gs)) b zero_message)
        (sym whole)
      ∙ e
      ∙ rounds_done message_round (λ msg. (msg, none)) left (visit_all set_field gs zero_message)

  frame_round-message :
      (gs : List Field) (rest : Bytes) (u : Unit {0})
      → All IsField gs
      → frame_round (encode (bytes_field 6 (encode_all gs)) ++ rest) u
        ≡ returns (visit_all set_field gs zero_message, (true, none))
  unfolding frame_round frame_field decoded_bytes decoded
  frame_round-message gs rest u h =
      let sub = encode_all gs in
      rw
        (
          encode-bytes laws 6 sub rest,
          laws.read_tag 6 bytes_type (w.append_bytes [] sub ++ rest)
              (record { positive = omega arith; bounded = omega arith }) (omega arith),
          drop-append (w.append_tag [] 6 bytes_type) (w.append_bytes [] sub ++ rest),
          laws.read_bytes sub rest,
          decode_channel_message_fields-encode_all gs h,
        )
        refl

  frame_round-bad :
      (c : ℕ) (rest : Bytes) (err : String)
      → w.consume_tag (c ∷ rest) ≡ failed err
      → frame_round (c ∷ rest) tt ≡ returns (zero_message, (false, some err))
  unfolding frame_round
  frame_round-bad c rest err bad = rw bad refl

  -- The message of a frame is what the fields of its channel_message set, one after the other.
  pub decode_channel_message-visit_all :
      (fs gs : List Field) (rest : Bytes)
      → All IsField fs
      → All IsSkipped fs
      → All IsField gs
      → decode_channel_message (encode_all fs ++ (encode (bytes_field 6 (encode_all gs)) ++ rest))
        ≡ (visit_all set_field gs zero_message, (true, none))
  decode_channel_message-visit_all fs gs rest h a g =
      let (left, (enough, e)) =
        after_skipped fs (encode (bytes_field 6 (encode_all gs)) ++ rest) h a in
      let frame = encode (bytes_field 6 (encode_all gs)) in
      let some_byte =
        length-encode laws (bytes_field 6 (encode_all gs))
          (record { positive = omega arith; bounded = omega arith }, tt) in
      e
      ∙ rounds_return frame_round _ left (frame ++ rest) tt _
          (omega (arith, some_byte, length-append frame rest)) enough
          (frame_round-message gs rest tt g)

  -- A frame of fields that are no channel_message gives no message and no error, and one that goes
  -- on with bytes that are no tag gives no message and the error of the tag.
  pub decode_channel_message-other :
      (fs : List Field) (c : ℕ) (rest : Bytes) (err : String)
      → All IsField fs
      → All IsSkipped fs
      → w.consume_tag (c ∷ rest) ≡ failed err
      → (decode_channel_message (encode_all fs) ≡ (zero_message, (false, none)))
        × (decode_channel_message (encode_all fs ++ (c ∷ rest)) ≡ (zero_message, (false, some err)))
  decode_channel_message-other fs c rest err h a bad =
      let (left, (enough, e)) = after_skipped fs [] h a in
      let (left', (enough', e')) = after_skipped fs (c ∷ rest) h a in
      (
        ap decode_channel_message (sym (append-nil (encode_all fs)))
            ∙ e
            ∙ rounds_done frame_round _ left tt,
        e'
            ∙ rounds_return frame_round _ left' (c ∷ rest) tt _ (omega arith) enough'
                (frame_round-bad c rest err bad),
      )
