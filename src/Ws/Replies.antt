-- ===== src/Ws/Replies.antt =====
-- lib/ws/ack.go: what DecodeAck makes of requests and of replies.
use mezon_go_sdk_turbo.Prelude.{
  ℕ, ◌==◌, ◌≡◌, ◌≢◌, refl, sym, ap, ◌∙◌, inl, inr, Bool, true, false, ◌&&◌, List, [], ◌∷◌, ◌++◌,
  arith, All, All-append, Bytes, IsU64, if◌then◌else◌, Bool-cases,
}
use mathlib.Core.List.{append_assoc, append-nil}
use mezon_go_sdk_turbo.Proto.{ProtoWire, IsProtoWire}
use mezon_go_sdk_turbo.Ws.Wire.{env_error, append_varint_field}
use mezon_go_sdk_turbo.Ws.Fields.{Field, varint_field, bytes_field, visit_field, visit_all}
use mezon_go_sdk_turbo.Ws.Parts.{
  Part, number, IsPart, part_fields, parts_fields, append_part, append_parts, append_parts-fields,
  walk_varints-append_parts,
}
use mezon_go_sdk_turbo.Ws.Read.{visit_all-append}
use mezon_go_sdk_turbo.Ws.Ack.{
  Ack, Reply, env_channel_message_ack, no_reply, set_cid, visit_reply, decode_ack, with_cid,
}
use mezon_go_sdk_turbo.Ws.View.{number-IsPart}

-- The number of a field.
abbrev pub number_of : Field → ℕ
number_of (varint_field num v) = num
number_of (bytes_field num b) = num

abbrev pub IsOther : Field → Type 0
IsOther f = number_of f ≢ 1

pub not_one : (num : ℕ) → num ≢ 1 → (num == 1) ≡ false
not_one num h = ground (arith, h)

module _ ⦃w : ProtoWire⦄ where
  -- The state of DecodeAck after the fields.
  abbrev pub reply_of : List Field → Reply → Reply
  reply_of fs r = visit_all (visit_field visit_reply) fs r

  abbrev pub result : Reply → Ack × Bool
  result r = (r.ack, r.has_cid && r.has_reply)

  set_cid-visit_reply :
      (cid : ℕ) (f : Field) (r : Reply)
      → IsOther f
      → visit_field visit_reply f (set_cid cid r) ≡ set_cid cid (visit_field visit_reply f r)
  unfolding set_cid visit_reply
  set_cid-visit_reply cid (varint_field num v) r h = rw (not_one num h) refl
  set_cid-visit_reply cid (bytes_field num b) r h =
      rw (not_one num h) (elim (Bool-cases (num == env_channel_message_ack)) [
        | inl ack ↦ rw ack refl
        | inr other ↦ elim (Bool-cases (num == env_error)) [
          | inl error ↦ rw (other, error) refl
          | inr none_of ↦ rw (other, none_of) refl
        ]
      ])

  set_cid-reply_of :
      (cid : ℕ) (fs : List Field) (r : Reply)
      → All IsOther fs
      → reply_of fs (set_cid cid r) ≡ set_cid cid (reply_of fs r)
  set_cid-reply_of cid [] r h = refl
  set_cid-reply_of cid (f ∷ fs) r h =
      ap (reply_of fs) (set_cid-visit_reply cid f r h.0)
      ∙ set_cid-reply_of cid fs (visit_field visit_reply f r) h.1

  -- A cid field before the fields or after them.
  reply_of_moved :
      (empty : Bool) (cid : ℕ) (fs : List Field) (r : Reply)
      → All IsOther fs
      → reply_of ((if empty then [] else varint_field 1 cid ∷ []) ++ fs) r
        ≡ reply_of (fs ++ ((if empty then [] else varint_field 1 cid ∷ []) ++ [])) r
  unfolding visit_reply
  reply_of_moved true cid fs r h = ap (λ gs. reply_of gs r) (sym (append-nil fs))
  reply_of_moved false cid fs r h =
      set_cid-reply_of cid fs r h
      ∙ sym (visit_all-append (visit_field visit_reply) fs (varint_field 1 cid ∷ []) r)

parts_fields-append :
    (ps qs : List Part) → parts_fields (ps ++ qs) ≡ parts_fields ps ++ parts_fields qs
parts_fields-append [] qs = refl
parts_fields-append (p ∷ ps) qs =
    ap (λ t. part_fields p ++ t) (parts_fields-append ps qs)
    ∙ sym (append_assoc (part_fields p) (parts_fields ps) (parts_fields qs))

append_parts-snoc :
    ⦃w : ProtoWire⦄ (b : Bytes) (ps : List Part) (p : Part)
    → append_parts b (ps ++ (p ∷ [])) ≡ append_part (append_parts b ps) p
unfolding append_parts
append_parts-snoc b [] p = refl
append_parts-snoc b (q ∷ ps) p = append_parts-snoc (append_part b q) ps p

module _ ⦃w : ProtoWire⦄ (laws : IsProtoWire w) where
  pub with_cid-append_parts :
      (cid : ℕ) (ps : List Part)
      → with_cid cid (append_parts [] ps) ≡ append_parts [] (number 1 cid ∷ ps)
  unfolding with_cid append_parts append_part
  with_cid-append_parts cid ps =
      rw
        (append_parts-fields laws [] ps, append_parts-fields laws (append_varint_field [] 1 cid) ps)
        refl

  pub decode_ack-append_parts :
      (ps : List Part)
      → All IsPart ps
      → decode_ack (append_parts [] ps) ≡ result (reply_of (parts_fields ps) no_reply)
  unfolding decode_ack
  decode_ack-append_parts ps h = rw (walk_varints-append_parts laws ps visit_reply no_reply h) refl

  -- WithCid: prefixing an envelope with a cid that is not 0 is setting field 1 after its fields,
  -- for an envelope of any parts without a field 1.
  pub decode_ack-with_cid :
      (cid : ℕ) (ps : List Part)
      → IsU64 cid
      → All IsPart ps
      → All IsOther (parts_fields ps)
      → decode_ack (with_cid cid (append_parts [] ps))
        ≡ decode_ack (append_varint_field (append_parts [] ps) 1 cid)
  unfolding append_part
  decode_ack-with_cid cid ps u h o =
      let field = number 1 cid in
      let is_part = number-IsPart 1 cid (omega arith) (omega arith) u in
      ap decode_ack (with_cid-append_parts cid ps)
      ∙ decode_ack-append_parts (field ∷ ps) (is_part, h)
      ∙ ap result (reply_of_moved (cid == 0) cid (parts_fields ps) no_reply o)
      ∙ ap (λ fs. result (reply_of fs no_reply)) (sym (parts_fields-append ps (field ∷ [])))
      ∙ sym (
          decode_ack-append_parts (ps ++ (field ∷ []))
            (All-append IsPart ps (field ∷ []) h (is_part, tt)))
      ∙ ap decode_ack (append_parts-snoc [] ps field)
