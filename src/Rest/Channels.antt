-- ===== src/Rest/Channels.antt =====
-- lib/rest/clans.go: the list that ListChannels makes of an answer.
use mezon_go_sdk_turbo.Prelude.{
  ◌||◌, ℕ, ◌==◌, ◌≡◌, refl, sym, ap, ◌∙◌, inl, inr, Bool, true, false, not, List, [], ◌∷◌, ◌++◌,
  map, none, Bytes, IsU64, All, is_empty, format_uint, arith, if◌then◌else◌, Bool-cases,
}
use mezon_go_sdk_turbo.Ws.View.{number-IsPart, small-IsNumber, or_empty}
use mathlib.Core.List.{append-nil, append_assoc}
use mezon_go_sdk_turbo.Proto.{ProtoWire, IsProtoWire}
use mezon_go_sdk_turbo.Ws.Fields.{varint_field, bytes_field, visit_field, visit_wire, visit_all}
use mezon_go_sdk_turbo.Ws.Parts.{
  Part, number, text, messages, parts_fields, append_parts, append_parts-fields,
  walk_varints-append_parts, parts_fields-IsField,
}
use mezon_go_sdk_turbo.Rest.{
  or_nothing, Channel, visit_channel, no_channel, channel_type_text, add_channel, channels_of,
  each_repeated, walk,
}
use mezon_go_sdk_turbo.Rest.Repeated.{each_repeated-encode_all}
use mezon_go_sdk_turbo.Rest.Ids.{has_id-format_uint}

-- What the server tells of a channel.
pub record ChannelDesc : Type 0 where
  pub number : ℕ
  pub kind : ℕ
  pub label : Bytes

-- The text channels that have an id, with their labels; a type that is not sent counts as text.
abbrev pub kind_of : ChannelDesc → ℕ
kind_of d = if d.kind == 0 then channel_type_text else d.kind

abbrev pub listed_channels : List ChannelDesc → List Channel
listed_channels [] = []
listed_channels (d ∷ ds) =
    let rest = listed_channels ds in
    if d.number == 0 || not (kind_of d == channel_type_text)
    then rest
    else record { id = format_uint d.number; label = d.label } ∷ rest

abbrev pub IsChannelDesc : ChannelDesc → Type 0
IsChannelDesc d = IsU64 d.number × IsU64 d.kind

-- A channel and its type, with a label.
abbrev found : ChannelDesc → Bytes → Channel × ℕ
found d b =
    (record { id = if d.number == 0 then [] else format_uint d.number; label = b }, kind_of d)

module _ ⦃w : ProtoWire⦄ where
  abbrev pub channel_parts : ChannelDesc → List Part
  channel_parts d = number 3 d.number ∷ number 6 d.kind ∷ text 8 d.label ∷ []

  -- The answer of ListChannelDescs.
  unfoldable pub channels_answer : List ChannelDesc → Bytes
  channels_answer ds =
      append_parts [] (messages 1 (map (λ d. append_parts [] (channel_parts d)) ds) ∷ [])

module _ ⦃w : ProtoWire⦄ (laws : IsProtoWire w) where
  visits_channel :
      (d : ChannelDesc) (a b c : Bool)
      → visit_all
          (visit_field visit_channel)
          ((if a then [] else varint_field 3 d.number ∷ [])
            ++ ((if b then [] else varint_field 6 d.kind ∷ [])
                ++ ((if c then [] else bytes_field 8 d.label ∷ []) ++ [])))
          no_channel
        ≡ (
          record { id = if a then [] else format_uint d.number; label = if c then [] else d.label },
          if b then channel_type_text else d.kind,
        )
  unfolding visit_channel
  visits_channel d true true true = refl
  visits_channel d true true false = refl
  visits_channel d true false true = refl
  visits_channel d true false false = refl
  visits_channel d false true true = refl
  visits_channel d false true false = refl
  visits_channel d false false true = refl
  visits_channel d false false false = refl

  walk-channel_parts :
      (d : ChannelDesc)
      → IsChannelDesc d
      → walk (append_parts [] (channel_parts d)) visit_channel no_channel ≡ (
        record { id = if d.number == 0 then [] else format_uint d.number; label = d.label },
        kind_of d,
      )
  unfolding walk
  walk-channel_parts d h =
      walk_varints-append_parts laws (channel_parts d) visit_channel no_channel (
        number-IsPart 3 d.number (omega arith) (omega arith) h.0,
        (
          number-IsPart 6 d.kind (omega arith) (omega arith) h.1,
          ((small-IsNumber 8 (omega arith) (omega arith), tt), tt),
        ),
      )
      ∙ visits_channel d (d.number == 0) (d.kind == 0) (is_empty d.label)
      ∙ ap (found d) (or_empty d.label)

  add_channel-channel_parts :
      (d : ChannelDesc) (chans : List Channel)
      → IsChannelDesc d
      → add_channel (append_parts [] (channel_parts d)) chans ≡ (
          if d.number == 0 || not (kind_of d == channel_type_text)
          then chans
          else chans ++ (record { id = format_uint d.number; label = d.label } ∷ []))
  unfolding add_channel
  add_channel-channel_parts d chans h =
      rw (walk-channel_parts d h) (elim (Bool-cases (d.number == 0)) [
        | inl nil ↦ rw nil refl
        | inr set ↦
            rw (set, has_id-format_uint d.number h.0 (ground (arith, set)))
              (kept (kind_of d == channel_type_text))
      ])
    where
      kept :
          (same : Bool)
          → (if same
              then chans ++ (record { id = format_uint d.number; label = d.label } ∷ [])
              else chans)
            ≡ (if not same
                then chans
                else chans ++ (record { id = format_uint d.number; label = d.label } ∷ []))
      kept true = refl
      kept false = refl

  add_channels-listed_channels :
      (ds : List ChannelDesc) (chans : List Channel)
      → All IsChannelDesc ds
      → visit_all
          (visit_wire 1 add_channel)
          (map (bytes_field 1) (map (λ d. append_parts [] (channel_parts d)) ds) ++ [])
          chans
        ≡ chans ++ listed_channels ds
  add_channels-listed_channels [] chans h = sym (append-nil chans)
  add_channels-listed_channels (d ∷ ds) chans h =
      ap
        (visit_all (visit_wire 1 add_channel)
          (map (bytes_field 1) (map (λ d. append_parts [] (channel_parts d)) ds) ++ []))
        (add_channel-channel_parts d chans h.0)
      ∙ (elim (Bool-cases (d.number == 0 || not (kind_of d == channel_type_text))) [
        | inl dropped ↦ rw dropped (add_channels-listed_channels ds chans h.1)
        | inr kept ↦ rw kept (
            add_channels-listed_channels ds
              (chans ++ (record { id = format_uint d.number; label = d.label } ∷ [])) h.1
            ∙ append_assoc chans (record { id = format_uint d.number; label = d.label } ∷ [])
                (listed_channels ds))
      ])

  -- ListChannels, on the answer of a server that lists channels with their ids, types and labels,
  -- gives those whose id is not 0 and whose type is text or not sent, in their order, each with its
  -- own id and label, and no error.
  pub channels_of-channels_answer :
      (ds : List ChannelDesc)
      → All IsChannelDesc ds
      → channels_of (channels_answer ds) ≡ (listed_channels ds, none)
  unfolding channels_of channels_answer
  channels_of-channels_answer ds h =
      let ps = messages 1 (map (λ d. append_parts [] (channel_parts d)) ds) ∷ [] in
      ap or_nothing (
        ap (λ b. each_repeated add_channel b []) (append_parts-fields laws [] ps)
        ∙ each_repeated-encode_all laws add_channel (parts_fields ps) []
            (parts_fields-IsField ps ((small-IsNumber 1 (omega arith) (omega arith), tt), tt))
        ∙ ap (λ chans. (chans, none)) (add_channels-listed_channels ds [] h))
