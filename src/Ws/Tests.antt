-- ===== src/Ws/Tests.antt =====
-- Runs of lib/ws on concrete frames, and its theorems there.
use mathlib.Core.List.Perm
use mezon_go_sdk_turbo.Prelude.{
  suc, ◌≡◌, refl, arith, true, false, List, [], ◌∷◌, ◌++◌, none, some, if◌then◌else◌, ◌==◌, Bytes,
  ascii, format_uint,
}
use mezon_go_sdk_turbo.Proto.{failed}
use mezon_go_sdk_turbo.Ws.Wire.{
  SendOpts, Ref, id, append_varint_field, append_message_field, ref_bytes, build_send_envelope_raw,
  build_typing_envelope, build_reaction_envelope, build_sticker_envelope,
  build_ping_envelope_with_cid,
}
use mezon_go_sdk_turbo.Ws.Content.Patterns
use mezon_go_sdk_turbo.Ws.Content.{build_content}
use mezon_go_sdk_turbo.Ws.Post.{build_update_envelope, update_bytes}
use mezon_go_sdk_turbo.Ws.Leb.{
  leb_wire, leb_wire-IsProtoWire, varint, read_groups, take, tag_of, bytes_after, skipped,
}
use mezon_go_sdk_turbo.Ws.Fields.{Field, varint_field, bytes_field, encode, encode_all}
use mezon_go_sdk_turbo.Ws.Parts.{Part, messages, append_parts}
use mezon_go_sdk_turbo.Ws.Read.{read_bytes, keep_varint}
use mezon_go_sdk_turbo.Ws.Walk.{loop, varints_round, wire_round, walk_varints, walk_wire}
use mezon_go_sdk_turbo.Ws.Events.{IsTyping, build_typing_envelope-IsTyping}
use mezon_go_sdk_turbo.Ws.Reaction.{IsReaction, build_reaction_envelope-IsReaction}
use mezon_go_sdk_turbo.Ws.Sticker.{IsSticker, build_sticker_envelope-IsSticker}
use mezon_go_sdk_turbo.Ws.References.{ref_items-ref_bytes}
use mezon_go_sdk_turbo.Prelude.Int.{pos}
use mezon_go_sdk_turbo.Ws.PingWheel.{PingWheel, new_ping_wheel, add, tick}
use mezon_go_sdk_turbo.Ws.PingWheel.Tick.{times, tick_prunes}
use mezon_go_sdk_turbo.Ws.Enough.{walks_enough}
use mezon_go_sdk_turbo.Ws.View.{IsSent, small-IsNumber}
use mezon_go_sdk_turbo.Ws.Sent.{build_send_envelope_raw-IsSent}
use mezon_go_sdk_turbo.Ws.Decode.{mentions_to_json, ref_items}
use mezon_go_sdk_turbo.Ws.Channel.{zero_message, decode_channel_message}
use mezon_go_sdk_turbo.Types.{Message}
use mezon_go_sdk_turbo.Ws.Message.{Shows, decode_channel_message-Shows}
use mezon_go_sdk_turbo.Ws.Received.{decode_channel_message-other}
use mezon_go_sdk_turbo.Ws.Ack.{decode_ack, with_cid}
use mezon_go_sdk_turbo.Ws.Replies.{decode_ack-with_cid}
use mezon_go_sdk_turbo.Ws.Requests.{Request, update, build, decode_ack-build}
use mezon_go_sdk_turbo.Ws.Acks.{ack_frame, decode_ack-ack_frame}

abbrev reply : Ref
reply = record {
  ref_message_id = ascii "900";
  sender_id = ascii "555";
  sender_username = ascii "alice";
  sender_avatar = [];
  content = ascii "{\"t\":\"hi\"}";
}

opts : SendOpts
opts = record {
  ref = some reply;
  mentions = record { user_id = ascii "777"; s = 0; e = 4 } ∷ [];
  mention_everyone = false;
}

build_send_envelope_raw-IsSent_example :
    IsSent (ascii "222") (ascii "111") 2 true (ascii "{\"t\":\"@bob\"}") opts (
      read_bytes 8 (
        build_send_envelope_raw (ascii "222") (ascii "111") 2 true (ascii "{\"t\":\"@bob\"}") opts))
build_send_envelope_raw-IsSent_example =
    build_send_envelope_raw-IsSent leb_wire-IsProtoWire (ascii "222") (ascii "111") 2 true
      (ascii "{\"t\":\"@bob\"}") opts

-- A message of the server with a mention, as its fields.
abbrev live_fields : List Field
live_fields =
    varint_field 1 111
    ∷ varint_field 2 222
    ∷ varint_field 3 333
    ∷ varint_field 5 555
    ∷ bytes_field 6 (97 ∷ [])
    ∷ varint_field 20 1_770_000_000
    ∷ varint_field 22 2
    ∷ varint_field 24 1
    ∷ []

-- The mention list of `[{2: 777, 8: 4}]`.
mention_list : Bytes
mention_list = encode (bytes_field 1 (encode_all (varint_field 2 777 ∷ varint_field 8 4 ∷ [])))

mention_list_json : mentions_to_json mention_list ≡ ascii "[{\"user_id\":\"777\",\"s\":0,\"e\":4}]"
unfolding mention_list encode encode_all mentions_to_json ascii varint read_groups tag_of
    bytes_after take skipped
mention_list_json = refl

-- An empty ping, which no message is read from.
abbrev ping_fields : List Field
ping_fields = bytes_field 22 [] ∷ []

decode_channel_message-Shows_example :
    (msg : Message) × ((decode_channel_message (
          encode_all ping_fields ++ (encode (bytes_field 6 (encode_all live_fields)) ++ (255 ∷ [])))
        ≡ (msg, (true, none)))
      × Shows live_fields msg)
decode_channel_message-Shows_example =
    decode_channel_message-Shows leb_wire-IsProtoWire ping_fields live_fields (255 ∷ [])
      ((small-IsNumber 22 (omega arith) (omega arith), tt), tt) (omega arith, tt)
      (
        (small-IsNumber 1 (omega arith) (omega arith), omega arith),
        (
          (small-IsNumber 2 (omega arith) (omega arith), omega arith),
          (
            (small-IsNumber 3 (omega arith) (omega arith), omega arith),
            (
              (small-IsNumber 5 (omega arith) (omega arith), omega arith),
              (
                (small-IsNumber 6 (omega arith) (omega arith), tt),
                (
                  (small-IsNumber 20 (omega arith) (omega arith), omega arith),
                  (
                    (small-IsNumber 22 (omega arith) (omega arith), omega arith),
                    ((small-IsNumber 24 (omega arith) (omega arith), omega arith), tt),
                  ),
                ),
              ),
            ),
          ),
        ),
      )

-- A tag of the field number 0 is none.
bad_tag : leb_wire.consume_tag (0 ∷ []) ≡ failed "invalid field number"
unfolding read_groups tag_of
bad_tag = refl

decode_channel_message-other_example :
    (decode_channel_message (encode_all ping_fields) ≡ (zero_message, (false, none)))
    × (decode_channel_message (encode_all ping_fields ++ (0 ∷ []))
        ≡ (zero_message, (false, some "invalid field number")))
decode_channel_message-other_example =
    decode_channel_message-other leb_wire-IsProtoWire ping_fields 0 [] "invalid field number"
      ((small-IsNumber 22 (omega arith) (omega arith), tt), tt) (omega arith, tt) bad_tag

decode_ack-ack_frame_example :
    (((decode_ack (ack_frame 7 222 333)).0.cid ≡ 7)
      × (id (decode_ack (ack_frame 7 222 333)).0.message_id ≡ 333))
    × (((decode_ack (ack_frame 7 222 333)).0.err ≡ false)
        × ((decode_ack (ack_frame 7 222 333)).1 ≡ true))
decode_ack-ack_frame_example =
    decode_ack-ack_frame leb_wire-IsProtoWire 7 222 333 (omega arith) (omega arith) (omega arith)
      (omega arith)

-- An update, which the client waits for an acknowledgement of.
abbrev an_update : Request
an_update = update (ascii "222") (ascii "111") (ascii "333") 2 true (ascii "hi")

updated : Bytes
updated =
    append_message_field [] 9
      (update_bytes (ascii "222") (ascii "111") (ascii "333") 2 true (ascii "{\"t\":\"hi\"}"))

update_built : build an_update ≡ some updated
unfolding build build_update_envelope updated build_content ascii Patterns.inline_code Patterns.bold
    Patterns.url
update_built = refl

decode_ack-build_example :
    ((decode_ack (with_cid 7 updated)).1 ≡ false)
    × ((decode_ack (build_ping_envelope_with_cid 7)).1 ≡ false)
decode_ack-build_example =
    decode_ack-build leb_wire-IsProtoWire 7 an_update updated (omega arith) update_built

-- A reply with an error.
error_parts : List Part
error_parts = messages 12 (ascii "denied" ∷ []) ∷ []

decode_ack-with_cid_example :
    decode_ack (with_cid 7 (append_parts [] error_parts))
    ≡ decode_ack (append_varint_field (append_parts [] error_parts) 1 7)
unfolding error_parts
decode_ack-with_cid_example =
    decode_ack-with_cid leb_wire-IsProtoWire 7 error_parts (omega arith)
      ((small-IsNumber 12 (omega arith) (omega arith), tt), tt) (omega arith, tt)

-- A string of 200 bytes that is not there, with a hundred rounds.
walks_enough_example :
    (loop (varints_round (keep_varint 1)) 100 (10 ∷ 200 ∷ 1 ∷ []) 0
      ≡ walk_varints (10 ∷ 200 ∷ 1 ∷ []) (keep_varint 1) 0)
    × (loop (wire_round 1 (λ b n. suc n)) 100 (10 ∷ 200 ∷ 1 ∷ []) 0
        ≡ walk_wire (10 ∷ 200 ∷ 1 ∷ []) 1 (λ b n. suc n) 0)
walks_enough_example =
    walks_enough leb_wire-IsProtoWire 100 (10 ∷ 200 ∷ 1 ∷ []) 1 (keep_varint 1) (λ b n. suc n) 0
      (omega arith)

build_typing_envelope-IsTyping_example :
    IsTyping (ascii "222") (ascii "111") (ascii "555") (ascii "bob") [] 2 true (
      read_bytes 24
        (build_typing_envelope (ascii "222") (ascii "111") (ascii "555") (ascii "bob") [] 2 true))
build_typing_envelope-IsTyping_example =
    build_typing_envelope-IsTyping leb_wire-IsProtoWire (ascii "222") (ascii "111") (ascii "555")
      (ascii "bob") [] 2 true

build_reaction_envelope-IsReaction_example :
    IsReaction (ascii "111") (ascii "222") (ascii "333") [] (ascii "+1") true 2 true (
      read_bytes 26 (
        build_reaction_envelope
          (ascii "111")
          (ascii "222")
          (ascii "333")
          []
          (ascii "+1")
          true
          2
          true))
build_reaction_envelope-IsReaction_example =
    build_reaction_envelope-IsReaction leb_wire-IsProtoWire (ascii "111") (ascii "222")
      (ascii "333") [] (ascii "+1") true 2 true

build_sticker_envelope-IsSticker_example :
    IsSticker (ascii "222") (ascii "111") 2 false (ascii "cat") (ascii "https://cdn/cat.png") (
      read_bytes 8 (
        build_sticker_envelope
          (ascii "222")
          (ascii "111")
          2
          false
          (ascii "cat")
          (ascii "https://cdn/cat.png")))
build_sticker_envelope-IsSticker_example =
    build_sticker_envelope-IsSticker leb_wire-IsProtoWire (ascii "222") (ascii "111") 2 false
      (ascii "cat") (ascii "https://cdn/cat.png")

ref_items-ref_bytes_example :
    ref_items (append_message_field [] 1 (ref_bytes reply))
    ≡ record {
      message_id = [];
      sender_id = if id reply.sender_id == 0 then [] else format_uint (id reply.sender_id);
      content = reply.content;
    }
      ∷ []
ref_items-ref_bytes_example = ref_items-ref_bytes leb_wire-IsProtoWire reply

-- Three connections.
abbrev wheel : PingWheel
wheel = add 3 (add 2 (add 1 (new_ping_wheel (pos 0))))

tick_prunes_example :
    (times 2 (tick (λ c. c == 2) (λ cs. cs) wheel).0.conns ≡ 0)
    × (times 2 (tick (λ c. c == 2) (λ cs. cs) wheel).1 ≡ 0)
tick_prunes_example = tick_prunes (λ c. c == 2) (λ cs. cs) wheel 2 (Perm.refl wheel.conns)
