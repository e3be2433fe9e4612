-- ===== src/Ws/Events.antt =====
-- lib/ws/wire.go: what a reader finds in the typing envelope.
use mezon_go_sdk_turbo.Prelude.{
  ℕ, ◌≤◌, ◌≡◌, ◌∙◌, Bool, List, [], ◌∷◌, one_if, arith, All, Bytes, is_empty, if◌then◌else◌,
}
use mezon_go_sdk_turbo.Proto.{ProtoWire, IsProtoWire}
use mezon_go_sdk_turbo.Ws.Wire.{id, uint32, typing_bytes, build_typing_envelope}
use mezon_go_sdk_turbo.Ws.Parts.{Part, number, text, flag, IsPart, append_part, append_parts}
use mezon_go_sdk_turbo.Ws.Read.{
  read_varint, read_bytes, read_varint-append_parts, read_bytes-append_parts,
}
use mezon_go_sdk_turbo.Ws.View.{
  small-IsNumber, id-IsU64, uint32-IsU64, number-IsPart, or_zero, or_empty, or_unset,
}
use mezon_go_sdk_turbo.Ws.Sent.{envelope_message}

-- A MessageTypingEvent in which a reader finds the arguments of BuildTypingEnvelope; an empty
-- display name is replaced by the username.
pub record IsTyping ⦃w : ProtoWire⦄ (channel_id clan_id sender_id username display_name : Bytes)
    (mode : ℕ) (is_public : Bool) (msg : Bytes) : Type 0 where
  pub clan : read_varint 1 msg ≡ id clan_id
  pub channel : read_varint 2 msg ≡ id channel_id
  pub sender : read_varint 3 msg ≡ id sender_id
  pub channel_mode : read_varint 4 msg ≡ uint32 mode
  pub public : read_varint 5 msg ≡ one_if is_public
  pub name : read_bytes 6 msg ≡ username
  pub shown : read_bytes 7 msg ≡ (if is_empty display_name then username else display_name)

pub text-IsPart : (num : ℕ) (s : Bytes) → 1 ≤ num → num ≤ 31 → IsPart (text num s)
text-IsPart num s l h = (small-IsNumber num l h, tt)

pub flag-IsPart : (num : ℕ) (set : Bool) → 1 ≤ num → num ≤ 31 → IsPart (flag num set)
flag-IsPart num set l h = (small-IsNumber num l h, tt)

module _ ⦃w : ProtoWire⦄ (laws : IsProtoWire w) where
  module _ (channel_id clan_id sender_id username display_name : Bytes) (mode : ℕ)
      (is_public : Bool) where
    abbrev typing_parts : List Part
    typing_parts =
        number 1 (id clan_id)
        ∷ number 2 (id channel_id)
        ∷ number 3 (id sender_id)
        ∷ number 4 (uint32 mode)
        ∷ flag 5 is_public
        ∷ text 6 username
        ∷ text 7 (if is_empty display_name then username else display_name)
        ∷ []

    typing_parts-IsPart : All IsPart typing_parts
    typing_parts-IsPart = (
      number-IsPart 1 _ (omega arith) (omega arith) (id-IsU64 clan_id),
      (
        number-IsPart 2 _ (omega arith) (omega arith) (id-IsU64 channel_id),
        (
          number-IsPart 3 _ (omega arith) (omega arith) (id-IsU64 sender_id),
          (
            number-IsPart 4 _ (omega arith) (omega arith) (uint32-IsU64 mode),
            (
              flag-IsPart 5 is_public (omega arith) (omega arith),
              (
                text-IsPart 6 username (omega arith) (omega arith),
                (
                  text-IsPart 7 (if is_empty display_name then username else display_name)
                      (omega arith) (omega arith),
                  tt,
                ),
              ),
            ),
          ),
        ),
      ),
    )

    -- A reader of the envelope of BuildTypingEnvelope finds its arguments in field 24: the ids, the
    -- mode, the flag and the names, with the username where there is no display name.
    pub build_typing_envelope-IsTyping :
        IsTyping channel_id clan_id sender_id username display_name mode is_public (
          read_bytes 24 (
            build_typing_envelope channel_id clan_id sender_id username display_name mode
              is_public))
    unfolding build_typing_envelope typing_bytes append_parts append_part
    build_typing_envelope-IsTyping =
        let h = typing_parts-IsPart in
        rw (envelope_message laws 24 (append_parts [] typing_parts) (omega arith) (omega arith))
          (record {
            clan = read_varint-append_parts laws 1 typing_parts h ∙ or_zero (id clan_id);
            channel = read_varint-append_parts laws 2 typing_parts h ∙ or_zero (id channel_id);
            sender = read_varint-append_parts laws 3 typing_parts h ∙ or_zero (id sender_id);
            channel_mode = read_varint-append_parts laws 4 typing_parts h ∙ or_zero (uint32 mode);
            public = read_varint-append_parts laws 5 typing_parts h ∙ or_unset is_public;
            name = read_bytes-append_parts laws 6 typing_parts h ∙ or_empty username;
            shown =
                read_bytes-append_parts laws 7 typing_parts h
                ∙ or_empty (if is_empty display_name then username else display_name);
          })
