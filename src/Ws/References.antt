-- ===== src/Ws/References.antt =====
-- lib/ws/decode.go and lib/ws/wire.go: what refsToJSON reads of a MessageRef that the client wrote.
use mezon_go_sdk_turbo.Prelude.{
  ◌==◌, ◌≡◌, ap, ◌∙◌, Bool, [], ◌∷◌, ◌++◌, arith, is_empty, format_uint, if◌then◌else◌,
}
use mezon_go_sdk_turbo.Proto.{ProtoWire, IsProtoWire}
use mezon_go_sdk_turbo.Ws.Wire.{Ref, id, append_message_field, ref_bytes}
use mezon_go_sdk_turbo.Ws.Walk.{walk_varints}
use mezon_go_sdk_turbo.Ws.Fields.{varint_field, bytes_field, visit_field, visit_all}
use mezon_go_sdk_turbo.Ws.Parts.{
  messages, append_messages, append_part, append_parts, walk_varints-append_parts,
  walk_wire-append_parts,
}
use mezon_go_sdk_turbo.Ws.Decode.{RefItem, visit_ref, items, ref_items}
use mezon_go_sdk_turbo.Ws.View.{or_empty, small-IsNumber, ref_parts}
use mezon_go_sdk_turbo.Ws.Sent.{ref_parts-IsPart}

abbrev no_ref : RefItem
no_ref = record { message_id = []; sender_id = []; content = [] }

module _ ⦃w : ProtoWire⦄ (laws : IsProtoWire w) where
  visits_ref :
      (r : Ref) (a b c d e : Bool)
      → visit_all
          (visit_field visit_ref)
          ((if a then [] else varint_field 2 (id r.ref_message_id) ∷ [])
            ++ ((if b then [] else bytes_field 3 r.content ∷ [])
                ++ ((if c then [] else varint_field 6 (id r.sender_id) ∷ [])
                    ++ ((if d then [] else bytes_field 7 r.sender_username ∷ [])
                        ++ ((if e then [] else bytes_field 8 r.sender_avatar ∷ []) ++ [])))))
          no_ref
        ≡ record {
          message_id = [];
          sender_id = if c then [] else format_uint (id r.sender_id);
          content = if b then [] else r.content;
        }
  unfolding visit_ref
  visits_ref r a b c d e = ground arith

  -- In a list that holds the reference of BuildSendEnvelopeRaw, refsToJSON finds the sender and the
  -- content, and no message id: the id stands in field 2, and it reads field 1.
  pub ref_items-ref_bytes :
      (r : Ref)
      → ref_items (append_message_field [] 1 (ref_bytes r))
        ≡ record {
          message_id = [];
          sender_id = if id r.sender_id == 0 then [] else format_uint (id r.sender_id);
          content = r.content;
        }
          ∷ []
  unfolding ref_items items append_parts append_part append_messages ref_bytes
  ref_items-ref_bytes r =
      let ps = ref_parts r in
      let h = ref_parts-IsPart laws r in
      let one = messages 1 (append_parts [] ps ∷ []) ∷ [] in
      walk_wire-append_parts laws one 1
        (λ item out. out ++ (walk_varints item visit_ref no_ref ∷ [])) []
        ((small-IsNumber 1 (omega arith) (omega arith), tt), tt)
      ∙ ap (λ x. x ∷ [])
          (walk_varints-append_parts laws ps visit_ref no_ref h
            ∙ visits_ref r (id r.ref_message_id == 0) (is_empty r.content) (id r.sender_id == 0)
                (is_empty r.sender_username) (is_empty r.sender_avatar)
            ∙ ap
                (λ b. record {
                  message_id = [];
                  sender_id = if id r.sender_id == 0 then [] else format_uint (id r.sender_id);
                  content = b;
                })
                (or_empty r.content))
