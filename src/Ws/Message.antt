-- ===== src/Ws/Message.antt =====
-- lib/ws/decode.go: which field of a ChannelMessage each field of the decoded message shows.
use mezon_go_sdk_turbo.Prelude.{
  ℕ, ◌%◌, ◌^◌, ◌==◌, ◌≡◌, refl, ap, ◌∙◌, true, false, not, List, [], ◌∷◌, ◌++◌, Option, none, some,
  arith, All, Bytes, format_uint, if◌then◌else◌,
}
use mezon_go_sdk_turbo.Types.{Message}
use mezon_go_sdk_turbo.Proto.{ProtoWire, IsProtoWire}
use mezon_go_sdk_turbo.Ws.Fields.{
  Field, varint_field, bytes_field, IsField, encode, encode_all, visit_all,
}
use mezon_go_sdk_turbo.Ws.Decode.{
  set_text, set_varint, mentions_to_json, attachments_to_json, refs_to_json,
}
use mezon_go_sdk_turbo.Ws.Channel.{zero_message, decode_channel_message}
use mezon_go_sdk_turbo.Ws.Received.{set_field, IsSkipped, decode_channel_message-visit_all}

-- The value of a field of the number `k`, made into what the message shows.
abbrev pub varint_of : {A : Type 0} → ℕ → (ℕ → A) → Field → Option A
varint_of k show (varint_field num v) = if num == k then some (show v) else none
varint_of k show (bytes_field num b) = none

abbrev pub bytes_of : {A : Type 0} → ℕ → (Bytes → A) → Field → Option A
bytes_of k show (varint_field num v) = none
bytes_of k show (bytes_field num b) = if num == k then some (show b) else none

abbrev pub or_given : {A : Type 0} → Option A → A → A
or_given none a = a
or_given (some b) a = b

-- The value of the last field that has one, and `a` where none has.
abbrev pub last : {A : Type 0} → (Field → Option A) → List Field → A → A
last reader [] a = a
last reader (f ∷ fs) a = last reader fs (or_given (reader f) a)

module _ ⦃w : ProtoWire⦄ where
  -- The message shows the last field of each number.
  pub record Shows (gs : List Field) (msg : Message) : Type 0 where
    pub clan_id : msg.clan_id ≡ last (varint_of 1 format_uint) gs []
    pub channel_id : msg.channel_id ≡ last (varint_of 2 format_uint) gs []
    pub message_id : msg.message_id ≡ last (varint_of 3 format_uint) gs []
    pub sender_id : msg.sender_id ≡ last (varint_of 5 format_uint) gs []
    pub username : msg.username ≡ last (bytes_of 6 (λ b. b)) gs []
    pub avatar : msg.avatar ≡ last (bytes_of 7 (λ b. b)) gs []
    pub content : msg.content ≡ last (bytes_of 8 (λ b. b)) gs []
    pub channel_label : msg.channel_label ≡ last (bytes_of 9 (λ b. b)) gs []
    pub display_name : msg.display_name ≡ last (bytes_of 12 (λ b. b)) gs []
    pub clan_nick : msg.clan_nick ≡ last (bytes_of 13 (λ b. b)) gs []
    pub mentions : msg.mentions ≡ last (bytes_of 16 mentions_to_json) gs []
    pub attachments : msg.attachments ≡ last (bytes_of 17 attachments_to_json) gs []
    pub references : msg.references ≡ last (bytes_of 18 refs_to_json) gs []
    pub mode : msg.mode ≡ last (varint_of 22 (λ v. v % 2 ^ 32)) gs 0
    pub is_public : msg.is_public ≡ last (varint_of 24 (λ v. not (v == 0))) gs false

  -- A part of the message that each field changes as the reader says.
  shows_last :
      {A : Type 0} (part : Message → A) (reader : Field → Option A)
      → ((num v : ℕ) (msg : Message)
          → part (set_varint num v msg) ≡ or_given (reader (varint_field num v)) (part msg))
      → ((num : ℕ) (b : Bytes) (msg : Message)
          → part (set_text num b msg) ≡ or_given (reader (bytes_field num b)) (part msg))
      → (gs : List Field) (msg : Message)
      → part (visit_all set_field gs msg) ≡ last reader gs (part msg)
  shows_last part reader of_varint of_bytes [] msg = refl
  shows_last part reader of_varint of_bytes (varint_field num v ∷ gs) msg =
      shows_last part reader of_varint of_bytes gs (set_varint num v msg)
      ∙ ap (last reader gs) (of_varint num v msg)
  shows_last part reader of_varint of_bytes (bytes_field num b ∷ gs) msg =
      shows_last part reader of_varint of_bytes gs (set_text num b msg)
      ∙ ap (last reader gs) (of_bytes num b msg)

  visit_all-Shows : (gs : List Field) → Shows gs (visit_all set_field gs zero_message)
  unfolding set_text set_varint
  visit_all-Shows gs = record {
    clan_id =
        shows_last (λ m. m.clan_id) (varint_of 1 format_uint) (λ num v m. ground arith)
          (λ num b m. ground arith) gs zero_message;
    channel_id =
        shows_last (λ m. m.channel_id) (varint_of 2 format_uint) (λ num v m. ground arith)
          (λ num b m. ground arith) gs zero_message;
    message_id =
        shows_last (λ m. m.message_id) (varint_of 3 format_uint) (λ num v m. ground arith)
          (λ num b m. ground arith) gs zero_message;
    sender_id =
        shows_last (λ m. m.sender_id) (varint_of 5 format_uint) (λ num v m. ground arith)
          (λ num b m. ground arith) gs zero_message;
    username =
        shows_last (λ m. m.username) (bytes_of 6 (λ b. b)) (λ num v m. ground arith)
          (λ num b m. ground arith) gs zero_message;
    avatar =
        shows_last (λ m. m.avatar) (bytes_of 7 (λ b. b)) (λ num v m. ground arith)
          (λ num b m. ground arith) gs zero_message;
    content =
        shows_last (λ m. m.content) (bytes_of 8 (λ b. b)) (λ num v m. ground arith)
          (λ num b m. ground arith) gs zero_message;
    channel_label =
        shows_last (λ m. m.channel_label) (bytes_of 9 (λ b. b)) (λ num v m. ground arith)
          (λ num b m. ground arith) gs zero_message;
    display_name =
        shows_last (λ m. m.display_name) (bytes_of 12 (λ b. b)) (λ num v m. ground arith)
          (λ num b m. ground arith) gs zero_message;
    clan_nick =
        shows_last (λ m. m.clan_nick) (bytes_of 13 (λ b. b)) (λ num v m. ground arith)
          (λ num b m. ground arith) gs zero_message;
    mentions =
        shows_last (λ m. m.mentions) (bytes_of 16 mentions_to_json) (λ num v m. ground arith)
          (λ num b m. ground arith) gs zero_message;
    attachments =
        shows_last (λ m. m.attachments) (bytes_of 17 attachments_to_json) (λ num v m. ground arith)
          (λ num b m. ground arith) gs zero_message;
    references =
        shows_last (λ m. m.references) (bytes_of 18 refs_to_json) (λ num v m. ground arith)
          (λ num b m. ground arith) gs zero_message;
    mode =
        shows_last (λ m. m.mode) (varint_of 22 (λ v. v % 2 ^ 32)) (λ num v m. ground arith)
          (λ num b m. ground arith) gs zero_message;
    is_public =
        shows_last (λ m. m.is_public) (varint_of 24 (λ v. not (v == 0))) (λ num v m. ground arith)
          (λ num b m. ground arith) gs zero_message;
  }

module _ ⦃w : ProtoWire⦄ (laws : IsProtoWire w) where
  -- A frame with a channel_message, after any fields that are none and before any bytes at all, gives
  -- no error and a message that shows the last field of the channel_message with the number of each
  -- of its own, and the empty string, 0 or false where there is none: the numbers 1, 2, 3 and 5 are
  -- the ids of the clan, the channel, the message and the sender, 22 the mode, 24 whether the channel
  -- is public, 6, 7, 8, 9, 12 and 13 the username, avatar, content, channel label, display name and
  -- clan nick, and 16, 17 and 18 the mentions, attachments and references, which are converted.
  pub decode_channel_message-Shows :
      (fs gs : List Field) (rest : Bytes)
      → All IsField fs
      → All IsSkipped fs
      → All IsField gs
      → (msg : Message) × ((decode_channel_message
              (encode_all fs ++ (encode (bytes_field 6 (encode_all gs)) ++ rest))
            ≡ (msg, (true, none)))
          × Shows gs msg)
  decode_channel_message-Shows fs gs rest h a g = (
    visit_all set_field gs zero_message,
    (decode_channel_message-visit_all laws fs gs rest h a g, visit_all-Shows gs),
  )
