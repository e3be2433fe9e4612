-- ===== src/Ws/Sticker.antt =====
-- lib/ws/wire.go: what a reader finds in the sticker envelope.
use mezon_go_sdk_turbo.Prelude.{
  ℕ, ◌≡◌, refl, ap, ◌∙◌, Bool, List, [], ◌∷◌, map, one_if, arith, All, Bytes,
}
use mezon_go_sdk_turbo.Proto.{ProtoWire, IsProtoWire}
use mezon_go_sdk_turbo.Ws.Wire.{id, uint32, sticker, sticker_bytes, build_sticker_envelope}
use mezon_go_sdk_turbo.Ws.Parts.{
  Part, number, text, flag, messages, IsPart, append_messages, append_part, append_parts,
}
use mezon_go_sdk_turbo.Ws.Read.{
  read_varint, read_bytes, read_all, read_varint-append_parts, read_bytes-append_parts,
  read_all-append_parts,
}
use mezon_go_sdk_turbo.Ws.View.{
  small-IsNumber, id-IsU64, uint32-IsU64, number-IsPart, or_zero, or_empty, or_unset,
}
use mezon_go_sdk_turbo.Ws.Sent.{envelope_message}
use mezon_go_sdk_turbo.Ws.Events.{text-IsPart, flag-IsPart}

-- The name, the URL and the file type of a MessageAttachment.
abbrev pub view_attachment : ⦃w : ProtoWire⦄ → Bytes → Bytes × (Bytes × Bytes)
view_attachment a = (read_bytes 1 a, (read_bytes 3 a, read_bytes 4 a))

-- A ChannelMessageSend with one attachment, a sticker.
pub record IsSticker ⦃w : ProtoWire⦄ (channel_id clan_id : Bytes) (mode : ℕ) (is_public : Bool)
    (shortcode url msg : Bytes) : Type 0 where
  pub clan : read_varint 1 msg ≡ id clan_id
  pub channel : read_varint 2 msg ≡ id channel_id
  pub attachments : map view_attachment (read_all 5 msg) ≡ (shortcode, (url, sticker)) ∷ []
  pub channel_mode : read_varint 7 msg ≡ uint32 mode
  pub public : read_varint 11 msg ≡ one_if is_public

module _ ⦃w : ProtoWire⦄ (laws : IsProtoWire w) where
  module _ (channel_id clan_id : Bytes) (mode : ℕ) (is_public : Bool) (shortcode url : Bytes) where
    abbrev attachment_parts : List Part
    attachment_parts = text 1 shortcode ∷ text 3 url ∷ text 4 sticker ∷ []

    attachment_parts-IsPart : All IsPart attachment_parts
    attachment_parts-IsPart = (
      text-IsPart 1 shortcode (omega arith) (omega arith),
      (
        text-IsPart 3 url (omega arith) (omega arith),
        (text-IsPart 4 sticker (omega arith) (omega arith), tt),
      ),
    )

    abbrev sticker_parts : List Part
    sticker_parts =
        number 1 (id clan_id)
        ∷ number 2 (id channel_id)
        ∷ messages 5 (append_parts [] attachment_parts ∷ [])
        ∷ number 7 (uint32 mode)
        ∷ flag 11 is_public
        ∷ []

    sticker_parts-IsPart : All IsPart sticker_parts
    sticker_parts-IsPart = (
      number-IsPart 1 _ (omega arith) (omega arith) (id-IsU64 clan_id),
      (
        number-IsPart 2 _ (omega arith) (omega arith) (id-IsU64 channel_id),
        (
          (small-IsNumber 5 (omega arith) (omega arith), tt),
          (
            number-IsPart 7 _ (omega arith) (omega arith) (uint32-IsU64 mode),
            (flag-IsPart 11 is_public (omega arith) (omega arith), tt),
          ),
        ),
      ),
    )

    read_attachment :
        map view_attachment (append_parts [] attachment_parts ∷ [])
        ≡ (shortcode, (url, sticker)) ∷ []
    read_attachment =
        let h = attachment_parts-IsPart in
        rw
          (
            read_bytes-append_parts laws 1 attachment_parts h,
            read_bytes-append_parts laws 3 attachment_parts h,
            read_bytes-append_parts laws 4 attachment_parts h,
            or_empty shortcode,
            or_empty url,
          )
          refl

    sticker_bytes-append_parts :
        sticker_bytes channel_id clan_id mode is_public shortcode url
        ≡ append_parts [] sticker_parts
    unfolding sticker_bytes append_parts append_part append_messages
    sticker_bytes-append_parts = refl

    -- A reader of the envelope of BuildStickerEnvelope finds in its field 8 the ids, the mode and
    -- the flag, and one attachment: the shortcode, the URL and the file type "sticker".
    pub build_sticker_envelope-IsSticker :
        IsSticker channel_id clan_id mode is_public shortcode url
          (read_bytes 8 (build_sticker_envelope channel_id clan_id mode is_public shortcode url))
    unfolding build_sticker_envelope
    build_sticker_envelope-IsSticker =
        let h = sticker_parts-IsPart in
        rw
          (
            sticker_bytes-append_parts,
            envelope_message laws 8 (append_parts [] sticker_parts) (omega arith) (omega arith),
          )
          (record {
            clan = read_varint-append_parts laws 1 sticker_parts h ∙ or_zero (id clan_id);
            channel = read_varint-append_parts laws 2 sticker_parts h ∙ or_zero (id channel_id);
            attachments =
                ap (map view_attachment) (read_all-append_parts laws 5 sticker_parts h)
                ∙ read_attachment;
            channel_mode = read_varint-append_parts laws 7 sticker_parts h ∙ or_zero (uint32 mode);
            public = read_varint-append_parts laws 11 sticker_parts h ∙ or_unset is_public;
          })
