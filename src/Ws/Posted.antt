-- ===== src/Ws/Posted.antt =====
-- lib/ws/content.go, lib/ws/wire.go and lib/ws/ack.go: the content blob of a text, and what a reader
-- finds in its envelopes.
use mezon_go_sdk_turbo.Prelude.{
  ℕ, ◌+◌, ◌-◌, ◌≡◌, refl, ◌∙◌, inl, inr, Bool, true, List, [], ◌∷◌, ◌++◌, map, one_if, some, arith,
  All, Bytes, is_empty, drop, length, Bool-cases,
}
use mezon_go_sdk_turbo.Proto.{ProtoWire, IsProtoWire}
use mezon_go_sdk_turbo.Ws.Wire.{SendOpts, id, uint32, append_message_field, build_send_envelope_raw}
use mezon_go_sdk_turbo.Ws.Parts.{Part, number, flag, IsPart, append_part, append_parts}
use mezon_go_sdk_turbo.Ws.Read.{
  read_varint, read_bytes, read_varint-append_parts, read_bytes-append_parts,
}
use mezon_go_sdk_turbo.Ws.View.{
  id-IsU64, uint32-IsU64, number-IsPart, or_zero, or_empty, or_unset, IsSent,
}
use mezon_go_sdk_turbo.Ws.Sent.{envelope_message, build_send_envelope_raw-IsSent}
use mezon_go_sdk_turbo.Ws.Events.{text-IsPart, flag-IsPart}
use mezon_go_sdk_turbo.Ws.Content.{
  Region, LinkSpan, links_of, link_spans, link_mark, content_json, build_content,
}
use mezon_go_sdk_turbo.Ws.Content.Patterns.{trim_punct}
use mezon_go_sdk_turbo.Ws.Content.Units.{take, utf16_len}
use mezon_go_sdk_turbo.Ws.Content.Ranges.{IsIn, slice-some, url_matches}
use mezon_go_sdk_turbo.Ws.Content.Spans.{markdown_spans-HasSpans}
use mezon_go_sdk_turbo.Ws.Post.{update_bytes, build_send_envelope, build_update_envelope}

links_of-some :
    (text : Bytes) (rs : List Region)
    → All (IsIn 8 (length text)) rs
    → (links : List LinkSpan) × (links_of text rs ≡ some links)
unfolding links_of
links_of-some text [] h = ([], refl)
links_of-some text ((s, e) ∷ rs) h =
    let (links, found) = links_of-some text rs h.1 in
    let link = trim_punct (take (e - s) (drop s text)) in
    let start = utf16_len (take (s - 0) text) in
    let here = slice-some text s e (omega (arith, h.0.0)) h.0.1 in
    let before = slice-some text 0 s (omega arith) (omega (arith, h.0.0, h.0.1)) in
    elim (Bool-cases (is_empty link)) [
      | inl nothing ↦ (links, rw (here, links_of, before, found, nothing) refl)
      | inr some_link ↦ (
        record { s = start; e = start + utf16_len link } ∷ links,
        rw (here, links_of, before, found, some_link) refl,
      )
    ]

-- BuildContent returns on every text.
build_content-some : (text : Bytes) → (blob : Bytes) × (build_content text ≡ some blob)
unfolding build_content link_spans
build_content-some text =
    let (clean, (marks, (marked, ordered))) = markdown_spans-HasSpans text in
    let (links, linked) = links_of-some clean _ (url_matches clean) in
    (content_json clean (marks ++ map link_mark links), rw (marked, build_content, linked) refl)

-- A ChannelMessageUpdate in which a reader finds the arguments of BuildUpdateEnvelope.
pub record IsUpdate ⦃w : ProtoWire⦄ (channel_id clan_id message_id : Bytes) (mode : ℕ)
    (is_public : Bool) (content msg : Bytes) : Type 0 where
  pub clan : read_varint 1 msg ≡ id clan_id
  pub channel : read_varint 2 msg ≡ id channel_id
  pub message : read_varint 3 msg ≡ id message_id
  pub blob : read_bytes 4 msg ≡ content
  pub channel_mode : read_varint 7 msg ≡ uint32 mode
  pub public : read_varint 8 msg ≡ one_if is_public
  pub hide_edited : read_varint 9 msg ≡ 1

module _ ⦃w : ProtoWire⦄ (laws : IsProtoWire w) where
  -- With a protowire that keeps its documented laws: BuildSendEnvelope returns on every text, with
  -- an envelope in whose field 8 a reader finds the blob of BuildContent and the other arguments.
  pub build_send_envelope-IsSent :
      (channel_id clan_id : Bytes) (mode : ℕ) (is_public : Bool) (text : Bytes) (opts : SendOpts)
      → (blob : Bytes) × ((env : Bytes) × ((build_content text ≡ some blob)
            × (build_send_envelope channel_id clan_id mode is_public text opts ≡ some env)
            × IsSent channel_id clan_id mode is_public blob opts (read_bytes 8 env)))
  unfolding build_send_envelope
  build_send_envelope-IsSent channel_id clan_id mode is_public text opts =
      let (blob, found) = build_content-some text in
      (
        blob,
        (
          build_send_envelope_raw channel_id clan_id mode is_public blob opts,
          (
            found,
            rw (found, build_send_envelope) refl,
            build_send_envelope_raw-IsSent laws channel_id clan_id mode is_public blob opts,
          ),
        ),
      )

  module _ (channel_id clan_id message_id : Bytes) (mode : ℕ) (is_public : Bool) where
    abbrev update_parts : Bytes → List Part
    update_parts content =
        number 1 (id clan_id)
        ∷ number 2 (id channel_id)
        ∷ number 3 (id message_id)
        ∷ Part.text 4 content
        ∷ number 7 (uint32 mode)
        ∷ flag 8 is_public
        ∷ flag 9 true
        ∷ []

    update_parts-IsPart : (content : Bytes) → All IsPart (update_parts content)
    update_parts-IsPart content = (
      number-IsPart 1 _ (omega arith) (omega arith) (id-IsU64 clan_id),
      (
        number-IsPart 2 _ (omega arith) (omega arith) (id-IsU64 channel_id),
        (
          number-IsPart 3 _ (omega arith) (omega arith) (id-IsU64 message_id),
          (
            text-IsPart 4 content (omega arith) (omega arith),
            (
              number-IsPart 7 _ (omega arith) (omega arith) (uint32-IsU64 mode),
              (
                flag-IsPart 8 is_public (omega arith) (omega arith),
                (flag-IsPart 9 true (omega arith) (omega arith), tt),
              ),
            ),
          ),
        ),
      ),
    )

    update_bytes-IsUpdate :
        (content : Bytes)
        → IsUpdate channel_id clan_id message_id mode is_public content
            (update_bytes channel_id clan_id message_id mode is_public content)
    unfolding update_bytes append_parts append_part
    update_bytes-IsUpdate content =
        let ps = update_parts content in
        let h = update_parts-IsPart content in
        record {
          clan = read_varint-append_parts laws 1 ps h ∙ or_zero (id clan_id);
          channel = read_varint-append_parts laws 2 ps h ∙ or_zero (id channel_id);
          message = read_varint-append_parts laws 3 ps h ∙ or_zero (id message_id);
          blob = read_bytes-append_parts laws 4 ps h ∙ or_empty content;
          channel_mode = read_varint-append_parts laws 7 ps h ∙ or_zero (uint32 mode);
          public = read_varint-append_parts laws 8 ps h ∙ or_unset is_public;
          hide_edited = read_varint-append_parts laws 9 ps h;
        }

    -- With a protowire that keeps its documented laws: BuildUpdateEnvelope returns on every text,
    -- with an envelope in whose field 9 a reader finds the ids, the blob of BuildContent, the mode,
    -- the flag and hide_editted.
    pub build_update_envelope-IsUpdate :
        (text : Bytes)
        → (blob : Bytes) × ((env : Bytes) × ((build_content text ≡ some blob)
              × (build_update_envelope channel_id clan_id message_id mode is_public text ≡ some env)
              × IsUpdate channel_id clan_id message_id mode is_public blob (read_bytes 9 env)))
    unfolding build_update_envelope
    build_update_envelope-IsUpdate text =
        let (blob, found) = build_content-some text in
        (
          blob,
          (
            append_message_field [] 9
                (update_bytes channel_id clan_id message_id mode is_public blob),
            (
              found,
              rw (found, build_update_envelope) refl,
              rw
                  (envelope_message laws 9
                    (update_bytes channel_id clan_id message_id mode is_public blob) (omega arith)
                    (omega arith))
                  (update_bytes-IsUpdate blob),
            ),
          ),
        )
