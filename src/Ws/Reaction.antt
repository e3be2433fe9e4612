-- ===== src/Ws/Reaction.antt =====
-- lib/ws/wire.go: what a reader finds in the reaction envelope.
use mezon_go_sdk_turbo.Prelude.{
  ℕ, ◌≡◌, refl, ◌∙◌, Bool, true, false, List, [], ◌∷◌, one_if, arith, All, Bytes, IsU64, is_empty,
  if◌then◌else◌,
}
use mezon_go_sdk_turbo.Proto.{ProtoWire, IsProtoWire}
use mezon_go_sdk_turbo.Ws.Wire.{
  id, uint32, append_varint_field, reaction_bytes, build_reaction_envelope,
}
use mezon_go_sdk_turbo.Ws.Parts.{Part, number, text, flag, IsPart, append_part, append_parts}
use mezon_go_sdk_turbo.Ws.Read.{
  read_varint, read_bytes, read_varint-append_parts, read_bytes-append_parts,
}
use mezon_go_sdk_turbo.Ws.View.{id-IsU64, uint32-IsU64, number-IsPart, or_zero, or_empty, or_unset}
use mezon_go_sdk_turbo.Ws.Sent.{envelope_message}
use mezon_go_sdk_turbo.Ws.Events.{text-IsPart, flag-IsPart}

-- A MessageReactionEvent; an empty emoji id is no custom emoji.
pub record IsReaction ⦃w : ProtoWire⦄ (clan_id channel_id message_id emoji_id emoji : Bytes)
    (action : Bool) (mode : ℕ) (is_public : Bool) (msg : Bytes) : Type 0 where
  pub emoji_number : read_varint 2 msg ≡ (if is_empty emoji_id then 0 else id emoji_id)
  pub emoji_text : read_bytes 3 msg ≡ emoji
  pub added : read_varint 7 msg ≡ one_if action
  pub channel : read_varint 9 msg ≡ id channel_id
  pub message : read_varint 10 msg ≡ id message_id
  pub clan : read_varint 11 msg ≡ id clan_id
  pub channel_mode : read_varint 12 msg ≡ uint32 mode
  pub public : read_varint 14 msg ≡ one_if is_public

module _ ⦃w : ProtoWire⦄ (laws : IsProtoWire w) where
  module _ (clan_id channel_id message_id emoji_id emoji : Bytes) (action : Bool) (mode : ℕ)
      (is_public : Bool) where
    abbrev emoji_value : Bool → ℕ
    emoji_value empty = if empty then 0 else id emoji_id

    abbrev reaction_parts : Bool → List Part
    reaction_parts empty =
        number 2 (emoji_value empty)
        ∷ text 3 emoji
        ∷ flag 7 action
        ∷ number 9 (id channel_id)
        ∷ number 10 (id message_id)
        ∷ number 11 (id clan_id)
        ∷ number 12 (uint32 mode)
        ∷ flag 14 is_public
        ∷ []

    emoji_value-IsU64 : (empty : Bool) → IsU64 (emoji_value empty)
    emoji_value-IsU64 true = omega arith
    emoji_value-IsU64 false = id-IsU64 emoji_id

    reaction_parts-IsPart : (empty : Bool) → All IsPart (reaction_parts empty)
    reaction_parts-IsPart empty = (
      number-IsPart 2 _ (omega arith) (omega arith) (emoji_value-IsU64 empty),
      (
        text-IsPart 3 emoji (omega arith) (omega arith),
        (
          flag-IsPart 7 action (omega arith) (omega arith),
          (
            number-IsPart 9 _ (omega arith) (omega arith) (id-IsU64 channel_id),
            (
              number-IsPart 10 _ (omega arith) (omega arith) (id-IsU64 message_id),
              (
                number-IsPart 11 _ (omega arith) (omega arith) (id-IsU64 clan_id),
                (
                  number-IsPart 12 _ (omega arith) (omega arith) (uint32-IsU64 mode),
                  (flag-IsPart 14 is_public (omega arith) (omega arith), tt),
                ),
              ),
            ),
          ),
        ),
      ),
    )

    -- The emoji id as a part: an empty one leaves no field.
    emoji_part :
        (empty : Bool)
        → (if empty then [] else append_varint_field [] 2 (id emoji_id))
          ≡ append_varint_field [] 2 (emoji_value empty)
    unfolding append_varint_field
    emoji_part true = refl
    emoji_part false = refl

    reaction_bytes-append_parts :
        reaction_bytes clan_id channel_id message_id emoji_id emoji action mode is_public
        ≡ append_parts [] (reaction_parts (is_empty emoji_id))
    unfolding reaction_bytes append_parts append_part
    reaction_bytes-append_parts = rw (emoji_part (is_empty emoji_id)) refl

    -- A reader of the envelope of BuildReactionEnvelope finds its arguments in field 26: the emoji,
    -- with no number where the emoji id is empty, whether it is added, the ids, the mode and the
    -- flag.
    pub build_reaction_envelope-IsReaction :
        IsReaction clan_id channel_id message_id emoji_id emoji action mode is_public (
          read_bytes 26 (
            build_reaction_envelope clan_id channel_id message_id emoji_id emoji action mode
              is_public))
    unfolding build_reaction_envelope
    build_reaction_envelope-IsReaction =
        let parts = reaction_parts (is_empty emoji_id) in
        let h = reaction_parts-IsPart (is_empty emoji_id) in
        rw
          (
            reaction_bytes-append_parts,
            envelope_message laws 26 (append_parts [] parts) (omega arith) (omega arith),
          )
          (record {
            emoji_number =
                read_varint-append_parts laws 2 parts h ∙ or_zero (emoji_value (is_empty emoji_id));
            emoji_text = read_bytes-append_parts laws 3 parts h ∙ or_empty emoji;
            added = read_varint-append_parts laws 7 parts h ∙ or_unset action;
            channel = read_varint-append_parts laws 9 parts h ∙ or_zero (id channel_id);
            message = read_varint-append_parts laws 10 parts h ∙ or_zero (id message_id);
            clan = read_varint-append_parts laws 11 parts h ∙ or_zero (id clan_id);
            channel_mode = read_varint-append_parts laws 12 parts h ∙ or_zero (uint32 mode);
            public = read_varint-append_parts laws 14 parts h ∙ or_unset is_public;
          })
