-- ===== src/Ws/Channel.antt =====
-- lib/ws/decode.go: the loops of decodeChannelMessageFields and DecodeChannelMessage. A round takes
-- at least the byte of a tag, so as many rounds as bytes are enough.
use mezon_go_sdk_turbo.Prelude.{
  ℕ, zero, suc, ◌==◌, Bool, true, false, ◌&&◌, [], ◌∷◌, String, Option, none, some, Bytes, drop,
  length, if◌then◌else◌,
}
use mezon_go_sdk_turbo.Types.{Message}
use mezon_go_sdk_turbo.Proto.{ProtoWire, Consumed, failed, took, varint_type, bytes_type}
use mezon_go_sdk_turbo.Ws.Decode.{field_channel_message, set_text, set_varint}

-- `types.Message{}`
abbrev pub zero_message : Message
zero_message = record {
  channel_id = [];
  clan_id = [];
  message_id = [];
  sender_id = [];
  content = [];
  mentions = [];
  attachments = [];
  references = [];
  username = [];
  avatar = [];
  display_name = [];
  clan_nick = [];
  channel_label = [];
  mode = 0;
  is_public = false;
}

-- A round that goes on with the rest of the frame, or returns.
pub data Round (S R : Type 0) : Type 0 where
  goes : Bytes → S → Round S R
  returns : R → Round S R

-- `for len(b) > 0`, with what is returned after it.
unfoldable pub rounds : {S R : Type 0} → (Bytes → S → Round S R) → (S → R) → ℕ → Bytes → S → R
rounds round done zero b s = done s
rounds round done (suc fuel) [] s = done s
rounds round done (suc fuel) (x ∷ xs) s = elim (round (x ∷ xs) s) [
  | goes b t ↦ rounds round done fuel b t
  | returns r ↦ r
]

-- `if n < 0 { return …, ParseError(n) }`, and `b = b[n:]` with a change of the state.
abbrev pub or_fail : {S R A : Type 0} → (String → R) → (A → S) → Bytes → Consumed A → Round S R
or_fail fail change b (failed err) = returns (fail err)
or_fail fail change b (took a n) = goes (drop n b) (change a)

module _ ⦃w : ProtoWire⦄ where
  unfoldable pub message_field : ℕ → ℕ → Bytes → Message → Round Message (Message × Option String)
  unfolding set_text set_varint
  message_field num typ b msg =
      if typ == bytes_type
      then or_fail (λ err. (msg, some err)) (λ v. set_text num v msg) b (w.consume_bytes b)
      else if typ == varint_type
      then or_fail (λ err. (msg, some err)) (λ v. set_varint num v msg) b (w.consume_varint b)
      else or_fail (λ err. (msg, some err)) (λ u. msg) b (w.consume_field_value num typ b)

  message_tagged : Bytes → Message → Consumed (ℕ × ℕ) → Round Message (Message × Option String)
  unfolding message_field
  message_tagged b msg (failed err) = returns (msg, some err)
  message_tagged b msg (took (num, typ) n) = message_field num typ (drop n b) msg

  unfoldable pub message_round : Bytes → Message → Round Message (Message × Option String)
  unfolding message_tagged
  message_round b msg = message_tagged b msg (w.consume_tag b)

  unfoldable pub decode_channel_message_fields : Bytes → Message × Option String
  unfolding rounds message_round
  decode_channel_message_fields b =
      rounds message_round (λ msg. (msg, none)) (length b) b zero_message

  -- What DecodeChannelMessage returns: the message, whether there is one, and the error.
  unfoldable pub decoded : Message × Option String → Message × (Bool × Option String)
  decoded (msg, none) = (msg, (true, none))
  decoded (msg, some err) = (zero_message, (false, some err))

  unfoldable pub decoded_bytes : Consumed Bytes → Message × (Bool × Option String)
  unfolding decoded decode_channel_message_fields
  decoded_bytes (failed err) = (zero_message, (false, some err))
  decoded_bytes (took sub n) = decoded (decode_channel_message_fields sub)

  unfoldable pub frame_field : ℕ → ℕ → Bytes → Round (Unit {0}) (Message × (Bool × Option String))
  unfolding decoded_bytes
  frame_field num typ b =
      if num == field_channel_message && typ == bytes_type
      then returns (decoded_bytes (w.consume_bytes b))
      else or_fail (λ err. (zero_message, (false, some err))) (λ u. tt) b
          (w.consume_field_value num typ b)

  frame_tagged : Bytes → Consumed (ℕ × ℕ) → Round (Unit {0}) (Message × (Bool × Option String))
  unfolding frame_field
  frame_tagged b (failed err) = returns (zero_message, (false, some err))
  frame_tagged b (took (num, typ) n) = frame_field num typ (drop n b)

  unfoldable pub frame_round :
      Bytes → Unit {0} → Round (Unit {0}) (Message × (Bool × Option String))
  unfolding frame_tagged
  frame_round b u = frame_tagged b (w.consume_tag b)

  unfoldable pub decode_channel_message : Bytes → Message × (Bool × Option String)
  unfolding rounds frame_round
  decode_channel_message frame =
      rounds frame_round (λ u. (zero_message, (false, none))) (length frame) frame tt
