-- ===== src/Ws/Sent.antt =====
-- lib/ws/wire.go: what a reader finds in the envelopes that the client sends.
use mezon_go_sdk_turbo.Prelude.{
  ℕ, ◌≤◌, ◌≡◌, refl, ap, ◌∙◌, Bool, List, [], ◌∷◌, map, Option, none, some, arith, All, Bytes,
}
use mezon_go_sdk_turbo.Proto.{ProtoWire, IsProtoWire}
use mezon_go_sdk_turbo.Ws.Wire.{
  Mention, Ref, SendOpts, id, uint32, append_message_field, mention_bytes, ref_bytes, send_bytes,
  build_send_envelope_raw,
}
use mezon_go_sdk_turbo.Ws.Parts.{Part, messages, IsPart, append_messages, append_part, append_parts}
use mezon_go_sdk_turbo.Ws.Read.{
  read_bytes, read_varint-append_parts, read_bytes-append_parts, read_all-append_parts,
}
use mezon_go_sdk_turbo.Ws.View.{
  small-IsNumber, id-IsU64, uint32-IsU64, number-IsPart, mention_view, ref_view, ref_views, or_zero,
  or_empty, or_unset, read_ref, read_mention, mention_parts, ref_parts, ref_messages, send_parts,
  send_bytes-append_parts, IsSent,
}

module _ ⦃w : ProtoWire⦄ (laws : IsProtoWire w) where
  mention_parts-IsPart : (m : Mention) → All IsPart (mention_parts m)
  mention_parts-IsPart m = (
    number-IsPart 2 _ (omega arith) (omega arith) (id-IsU64 m.user_id),
    (
      number-IsPart 7 _ (omega arith) (omega arith) (uint32-IsU64 m.s),
      (number-IsPart 8 _ (omega arith) (omega arith) (uint32-IsU64 m.e), tt),
    ),
  )

  read_mention-mention_bytes : (m : Mention) → read_mention (mention_bytes m) ≡ mention_view m
  unfolding mention_bytes read_mention append_parts append_part
  read_mention-mention_bytes m =
      let ps = mention_parts m in
      let h = mention_parts-IsPart m in
      rw
        (
          read_varint-append_parts laws 2 ps h,
          read_varint-append_parts laws 7 ps h,
          read_varint-append_parts laws 8 ps h,
          or_zero (id m.user_id),
          or_zero (uint32 m.s),
          or_zero (uint32 m.e),
        )
        refl

  pub ref_parts-IsPart : (r : Ref) → All IsPart (ref_parts r)
  ref_parts-IsPart r = (
    number-IsPart 2 _ (omega arith) (omega arith) (id-IsU64 r.ref_message_id),
    (
      (small-IsNumber 3 (omega arith) (omega arith), tt),
      (
        number-IsPart 6 _ (omega arith) (omega arith) (id-IsU64 r.sender_id),
        (
          (small-IsNumber 7 (omega arith) (omega arith), tt),
          ((small-IsNumber 8 (omega arith) (omega arith), tt), tt),
        ),
      ),
    ),
  )

  read_ref-ref_bytes : (r : Ref) → read_ref (ref_bytes r) ≡ ref_view r
  unfolding ref_bytes read_ref append_parts append_part
  read_ref-ref_bytes r =
      let ps = ref_parts r in
      let h = ref_parts-IsPart r in
      rw
        (
          read_varint-append_parts laws 2 ps h,
          read_varint-append_parts laws 6 ps h,
          read_bytes-append_parts laws 3 ps h,
          read_bytes-append_parts laws 7 ps h,
          read_bytes-append_parts laws 8 ps h,
          or_zero (id r.ref_message_id),
          or_zero (id r.sender_id),
          or_empty r.content,
          or_empty r.sender_username,
          or_empty r.sender_avatar,
        )
        refl

  read_mentions :
      (ms : List Mention) → map read_mention (map mention_bytes ms) ≡ map mention_view ms
  read_mentions [] = refl
  read_mentions (m ∷ ms) = rw (read_mention-mention_bytes m, read_mentions ms) refl

  read_refs : (r : Option Ref) → map read_ref (ref_messages r) ≡ ref_views r
  read_refs none = refl
  read_refs (some r) = rw (read_ref-ref_bytes r) refl

  module _ (channel_id clan_id : Bytes) (mode : ℕ) (is_public : Bool) (content : Bytes)
      (opts : SendOpts) where
    abbrev parts : List Part
    parts = send_parts channel_id clan_id mode is_public content opts

    parts-IsPart : All IsPart parts
    parts-IsPart = (
      number-IsPart 1 _ (omega arith) (omega arith) (id-IsU64 clan_id),
      (
        number-IsPart 2 _ (omega arith) (omega arith) (id-IsU64 channel_id),
        (
          (small-IsNumber 3 (omega arith) (omega arith), tt),
          (
            (small-IsNumber 4 (omega arith) (omega arith), tt),
            (
              (small-IsNumber 6 (omega arith) (omega arith), tt),
              (
                number-IsPart 7 _ (omega arith) (omega arith) (uint32-IsU64 mode),
                (
                  (small-IsNumber 9 (omega arith) (omega arith), tt),
                  ((small-IsNumber 11 (omega arith) (omega arith), tt), tt),
                ),
              ),
            ),
          ),
        ),
      ),
    )

    parts-IsSent : IsSent channel_id clan_id mode is_public content opts (append_parts [] parts)
    parts-IsSent =
        let h = parts-IsPart in
        record {
          clan = read_varint-append_parts laws 1 parts h ∙ or_zero (id clan_id);
          channel = read_varint-append_parts laws 2 parts h ∙ or_zero (id channel_id);
          blob = read_bytes-append_parts laws 3 parts h ∙ or_empty content;
          mentions =
              ap (map read_mention) (read_all-append_parts laws 4 parts h)
              ∙ read_mentions opts.mentions;
          refs = ap (map read_ref) (read_all-append_parts laws 6 parts h) ∙ read_refs opts.ref;
          channel_mode = read_varint-append_parts laws 7 parts h ∙ or_zero (uint32 mode);
          everyone = read_varint-append_parts laws 9 parts h ∙ or_unset opts.mention_everyone;
          public = read_varint-append_parts laws 11 parts h ∙ or_unset is_public;
        }

  pub envelope_message :
      (num : ℕ) (msg : Bytes)
      → 1 ≤ num
      → num ≤ 31
      → read_bytes num (append_message_field [] num msg) ≡ msg
  unfolding append_parts append_part append_messages
  envelope_message num msg l h =
      read_bytes-append_parts laws num (messages num (msg ∷ []) ∷ [])
        ((small-IsNumber num l h, tt), tt)
      ∙ ground arith

  -- A reader of the envelope of BuildSendEnvelopeRaw finds in its field 8 the ids that the arguments
  -- spell, the content, every mention in order with its user and span, the reply reference or none,
  -- the mode and the two flags.
  pub build_send_envelope_raw-IsSent :
      (channel_id clan_id : Bytes) (mode : ℕ) (is_public : Bool) (content : Bytes) (opts : SendOpts)
      → IsSent channel_id clan_id mode is_public content opts
          (read_bytes 8 (build_send_envelope_raw channel_id clan_id mode is_public content opts))
  unfolding build_send_envelope_raw
  build_send_envelope_raw-IsSent channel_id clan_id mode is_public content opts =
      rw
        (
          envelope_message 8 (send_bytes channel_id clan_id mode is_public content opts)
              (omega arith) (omega arith),
          send_bytes-append_parts channel_id clan_id mode is_public content opts,
        )
        (parts-IsSent channel_id clan_id mode is_public content opts)
