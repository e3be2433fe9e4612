-- ===== src/Ws/Requests.antt =====
-- lib/ws/wire.go and lib/ws/ack.go: the envelopes that the client sends under a cid.
use mezon_go_sdk_turbo.Prelude.{
  ℕ, ◌≤◌, ◌==◌, ◌≡◌, ◌≢◌, refl, ◌∙◌, subst, Option, none, some, inl, inr, Bool, true, false, ◌&&◌,
  List, [], ◌∷◌, ◌++◌, arith, All, Bytes, IsU64, Parsed, parsed, syntax_error, range_error,
  parse_uint, if◌then◌else◌, Bool-cases,
}
use mezon_go_sdk_turbo.Proto.{ProtoWire, IsProtoWire}
use mezon_go_sdk_turbo.Ws.Wire.{
  SendOpts, send_bytes, append_message_field, env_error, build_send_envelope_raw,
  build_clan_join_envelope, build_typing_envelope, build_reaction_envelope, build_sticker_envelope,
  build_ping_envelope, build_ping_envelope_with_cid,
}
use mezon_go_sdk_turbo.Ws.Content.{build_content}
use mezon_go_sdk_turbo.Ws.Post.{build_send_envelope, build_update_envelope, update_bytes}
use mezon_go_sdk_turbo.Ws.Fields.{Field, varint_field, bytes_field, visit_field}
use mezon_go_sdk_turbo.Ws.Parts.{
  number, messages, IsPart, parts_fields, append_messages, append_part, append_parts,
}
use mezon_go_sdk_turbo.Ws.Ack.{
  Reply, env_channel_message_ack, no_reply, set_cid, cid_of_string, visit_reply, decode_ack,
  with_cid,
}
use mezon_go_sdk_turbo.Ws.View.{number-IsPart, small-IsNumber}
use mezon_go_sdk_turbo.Ws.Replies.{
  number_of, reply_of, with_cid-append_parts, decode_ack-append_parts,
}

-- A call of one of the builders.
pub data Request : Type 0 where
  send : Bytes → Bytes → ℕ → Bool → Bytes → SendOpts → Request
  clan_join : Bytes → Request
  typing : Bytes → Bytes → Bytes → Bytes → Bytes → ℕ → Bool → Request
  reaction : Bytes → Bytes → Bytes → Bytes → Bytes → Bool → ℕ → Bool → Request
  sticker : Bytes → Bytes → ℕ → Bool → Bytes → Bytes → Request
  ping : Request
  -- BuildSendEnvelope and BuildUpdateEnvelope, which make the content of a text.
  send_text : Bytes → Bytes → ℕ → Bool → Bytes → SendOpts → Request
  update : Bytes → Bytes → Bytes → ℕ → Bool → Bytes → Request

module _ ⦃w : ProtoWire⦄ where
  unfoldable pub build : Request → Option Bytes
  unfolding build_send_envelope build_update_envelope
  build (send ch clan mode is_public content opts) =
      some (build_send_envelope_raw ch clan mode is_public content opts)
  build (clan_join clan) = some (build_clan_join_envelope clan)
  build (typing ch clan sender username display_name mode is_public) =
      some (build_typing_envelope ch clan sender username display_name mode is_public)
  build (reaction clan ch message emoji_id emoji action mode is_public) =
      some (build_reaction_envelope clan ch message emoji_id emoji action mode is_public)
  build (sticker ch clan mode is_public shortcode url) =
      some (build_sticker_envelope ch clan mode is_public shortcode url)
  build ping = some build_ping_envelope
  build (send_text ch clan mode is_public text opts) =
      build_send_envelope ch clan mode is_public text opts
  build (update ch clan message mode is_public text) =
      build_update_envelope ch clan message mode is_public text

  has_reply-cid_of_string : (p : Parsed) (r : Reply) → (cid_of_string p r).has_reply ≡ r.has_reply
  unfolding cid_of_string set_cid
  has_reply-cid_of_string (parsed v) r = refl
  has_reply-cid_of_string syntax_error r = refl
  has_reply-cid_of_string range_error r = refl

  -- A field that is neither an acknowledgement nor an error.
  abbrev NoAnswer : Field → Type 0
  NoAnswer f = (number_of f ≢ env_channel_message_ack) × (number_of f ≢ env_error)

  has_reply-visit_reply :
      (f : Field) (r : Reply) → NoAnswer f → (visit_field visit_reply f r).has_reply ≡ r.has_reply
  unfolding visit_reply set_cid
  has_reply-visit_reply (varint_field num v) r h = ground arith
  has_reply-visit_reply (bytes_field num b) r h =
      let no_ack : (num == env_channel_message_ack) ≡ false = ground (arith, h) in
      let no_error : (num == env_error) ≡ false = ground (arith, h) in
      elim (Bool-cases (num == 1)) [
        | inl cid ↦ rw cid (has_reply-cid_of_string (parse_uint b) r)
        | inr other ↦ rw (other, no_ack, no_error) refl
      ]

  -- The one field of an envelope.
  record IsEnvelope (env : Bytes) : Type 0 where
    num : ℕ
    msg : Bytes
    small : (1 ≤ num) × (num ≤ 31)
    built : env ≡ append_message_field [] num msg
    no_answer : (num ≢ env_channel_message_ack) × (num ≢ env_error)

  sends :
      (num : ℕ) (msg : Bytes)
      → 1 ≤ num
      → num ≤ 31
      → num ≢ env_channel_message_ack
      → num ≢ env_error
      → IsEnvelope (append_message_field [] num msg)
  sends num msg l h a e = record {
    num = num;
    msg = msg;
    small = (l, h);
    built = refl;
    no_answer = (a, e);
  }

  -- The envelope that a builder gives, if it gives one.
  abbrev Sends : Option Bytes → Type 0
  Sends none = Unit {0}
  Sends (some env) = IsEnvelope env

  Sends-if :
      (num : ℕ) (show : Bytes → Bytes)
      → 1 ≤ num
      → num ≤ 31
      → num ≢ env_channel_message_ack
      → num ≢ env_error
      → (o : Option Bytes)
      → Sends (elim o [ none ↦ none | some b ↦ some (append_message_field [] num (show b)) ])
  Sends-if num show l h a e none = tt
  Sends-if num show l h a e (some b) = sends num (show b) l h a e

  build-Sends : (q : Request) → Sends (build q)
  unfolding build build_send_envelope build_update_envelope build_send_envelope_raw
      build_clan_join_envelope build_typing_envelope build_reaction_envelope build_sticker_envelope
      build_ping_envelope
  build-Sends (send ch clan mode is_public content opts) =
      sends 8 _ (omega arith) (omega arith) (omega arith) (omega arith)
  build-Sends (clan_join clan) = sends 3 _ (omega arith) (omega arith) (omega arith) (omega arith)
  build-Sends (typing ch clan sender username display_name mode is_public) =
      sends 24 _ (omega arith) (omega arith) (omega arith) (omega arith)
  build-Sends (reaction clan ch message emoji_id emoji action mode is_public) =
      sends 26 _ (omega arith) (omega arith) (omega arith) (omega arith)
  build-Sends (sticker ch clan mode is_public shortcode url) =
      sends 8 _ (omega arith) (omega arith) (omega arith) (omega arith)
  build-Sends ping = sends 22 _ (omega arith) (omega arith) (omega arith) (omega arith)
  build-Sends (send_text ch clan mode is_public text opts) =
      Sends-if 8 (λ b. send_bytes ch clan mode is_public b opts) (omega arith) (omega arith)
        (omega arith) (omega arith) (build_content text)
  build-Sends (update ch clan message mode is_public text) =
      Sends-if 9 (λ b. update_bytes ch clan message mode is_public b) (omega arith) (omega arith)
        (omega arith) (omega arith) (build_content text)

  of_Sends : (o : Option Bytes) (env : Bytes) → o ≡ some env → Sends o → IsEnvelope env
  of_Sends o env made s = subst Sends made s

  has_reply-reply_of :
      (fs : List Field) (r : Reply) → All NoAnswer fs → (reply_of fs r).has_reply ≡ r.has_reply
  has_reply-reply_of [] r h = refl
  has_reply-reply_of (f ∷ fs) r h =
      has_reply-reply_of fs (visit_field visit_reply f r) h.1 ∙ has_reply-visit_reply f r h.0

  cid_fields-NoAnswer :
      (empty : Bool) (cid : ℕ) (fs : List Field)
      → All NoAnswer fs
      → All NoAnswer ((if empty then [] else varint_field 1 cid ∷ []) ++ fs)
  cid_fields-NoAnswer true cid fs h = h
  cid_fields-NoAnswer false cid fs h = ((omega arith, omega arith), h)

and_false : (b : Bool) → (b && false) ≡ false
and_false true = refl
and_false false = refl

module _ ⦃w : ProtoWire⦄ (laws : IsProtoWire w) where
  pub with_cid-message :
      (cid num : ℕ) (msg : Bytes)
      → with_cid cid (append_message_field [] num msg)
        ≡ append_parts [] (number 1 cid ∷ messages num (msg ∷ []) ∷ [])
  unfolding append_parts append_part append_messages
  with_cid-message cid num msg = with_cid-append_parts laws cid (messages num (msg ∷ []) ∷ [])

  pub message-IsPart :
      (cid num : ℕ) (msg : Bytes)
      → IsU64 cid
      → 1 ≤ num
      → num ≤ 31
      → All IsPart (number 1 cid ∷ messages num (msg ∷ []) ∷ [])
  message-IsPart cid num msg u l h =
      (number-IsPart 1 cid (omega arith) (omega arith) u, ((small-IsNumber num l h, tt), tt))

  decode_ack-IsEnvelope :
      (cid : ℕ) (env : Bytes)
      → IsU64 cid
      → IsEnvelope env
      → (decode_ack (with_cid cid env)).1 ≡ false
  decode_ack-IsEnvelope cid env u e =
      let ps = number 1 cid ∷ messages e.num (e.msg ∷ []) ∷ [] in
      let quiet =
        has_reply-reply_of (parts_fields ps) no_reply
          (cid_fields-NoAnswer (cid == 0) cid (bytes_field e.num e.msg ∷ []) (e.no_answer, tt)) in
      rw
        (
          e.built,
          with_cid-message cid e.num e.msg,
          decode_ack-append_parts laws ps (message-IsPart cid e.num e.msg u e.small.0 e.small.1),
          quiet,
        )
        (and_false (reply_of (parts_fields ps) no_reply).has_cid)

  -- DecodeAck takes no envelope that a builder gives for a reply, whatever its cid, nor a ping
  -- that BuildPingEnvelopeWithCid gives.
  pub decode_ack-build :
      (cid : ℕ) (q : Request) (env : Bytes)
      → IsU64 cid
      → build q ≡ some env
      → ((decode_ack (with_cid cid env)).1 ≡ false)
        × ((decode_ack (build_ping_envelope_with_cid cid)).1 ≡ false)
  unfolding build_ping_envelope_with_cid build_ping_envelope with_cid build
  decode_ack-build cid q env u made = (
    decode_ack-IsEnvelope cid env u (of_Sends (build q) env made (build-Sends q)),
    decode_ack-IsEnvelope cid build_ping_envelope u (build-Sends ping),
  )
