-- ===== src/Ws/Parts.antt =====
-- lib/ws/wire.go: a message as the list of parts that its builder appends, with the fields they
-- leave in the frame: a zero number, an empty string and a flag that is not set leave none.
use mezon_go_sdk_turbo.Prelude.{
  ℕ, ◌≡◌, refl, sym, ap, ◌∙◌, ◌==◌, Bool, true, false, List, [], ◌∷◌, ◌++◌, map, arith, All,
  All-append, Bytes, IsU64, is_empty, if◌then◌else◌,
}
use mathlib.Core.List.{append_assoc, append-nil}
use mezon_go_sdk_turbo.Proto.{ProtoWire, IsProtoWire, IsNumber, varint_type, bytes_type}
use mezon_go_sdk_turbo.Ws.Wire.{
  append_varint_field, append_string_field, append_message_field, append_flag,
}
use mezon_go_sdk_turbo.Ws.Walk.{Visitor, walk_varints, walk_wire, varints_round, wire_round}
use mezon_go_sdk_turbo.Ws.Fields.{
  Field, varint_field, bytes_field, IsField, encode, encode_all, visit_field, visit_wire, visit_all,
  varints_round-encode, wire_round-encode, loop-encode_all,
}

pub data Part : Type 0 where
  number : ℕ → ℕ → Part
  text : ℕ → Bytes → Part
  flag : ℕ → Bool → Part
  messages : ℕ → List Bytes → Part

abbrev pub part_fields : Part → List Field
part_fields (number num v) = if v == 0 then [] else varint_field num v ∷ []
part_fields (text num s) = if is_empty s then [] else bytes_field num s ∷ []
part_fields (flag num set) = if set then varint_field num 1 ∷ [] else []
part_fields (messages num ms) = map (bytes_field num) ms

abbrev pub parts_fields : List Part → List Field
parts_fields [] = []
parts_fields (p ∷ ps) = part_fields p ++ parts_fields ps

abbrev pub IsPart : Part → Type 0
IsPart (number num v) = IsNumber num × IsU64 v
IsPart (text num s) = IsNumber num × Unit {0}
IsPart (flag num set) = IsNumber num × Unit {0}
IsPart (messages num ms) = IsNumber num × Unit {0}

message_fields-IsField :
    (num : ℕ) (ms : List Bytes) → IsNumber num → All IsField (map (bytes_field num) ms)
message_fields-IsField num [] h = tt
message_fields-IsField num (m ∷ ms) h = ((h, tt), message_fields-IsField num ms h)

unless-IsField : (empty : Bool) (f : Field) → IsField f → All IsField (if empty then [] else f ∷ [])
unless-IsField true f h = tt
unless-IsField false f h = (h, tt)

part_fields-IsField : (p : Part) → IsPart p → All IsField (part_fields p)
part_fields-IsField (number num v) h = unless-IsField (v == 0) (varint_field num v) h
part_fields-IsField (text num s) h = unless-IsField (is_empty s) (bytes_field num s) h
part_fields-IsField (flag num true) h = ((h.0, omega arith), tt)
part_fields-IsField (flag num false) h = tt
part_fields-IsField (messages num ms) h = message_fields-IsField num ms h.0

pub parts_fields-IsField : (ps : List Part) → All IsPart ps → All IsField (parts_fields ps)
parts_fields-IsField [] h = tt
parts_fields-IsField (p ∷ ps) h =
    All-append IsField (part_fields p) (parts_fields ps) (part_fields-IsField p h.0)
      (parts_fields-IsField ps h.1)

module _ ⦃w : ProtoWire⦄ where
  unfoldable pub append_messages : Bytes → ℕ → List Bytes → Bytes
  append_messages b num [] = b
  append_messages b num (m ∷ ms) = append_messages (append_message_field b num m) num ms

  unfoldable pub append_part : Bytes → Part → Bytes
  unfolding append_messages
  append_part b (number num v) = append_varint_field b num v
  append_part b (text num s) = append_string_field b num s
  append_part b (flag num set) = append_flag b num set
  append_part b (messages num ms) = append_messages b num ms

  unfoldable pub append_parts : Bytes → List Part → Bytes
  unfolding append_part
  append_parts b [] = b
  append_parts b (p ∷ ps) = append_parts (append_part b p) ps

module _ ⦃w : ProtoWire⦄ (laws : IsProtoWire w) where
  encode_all-append : (fs gs : List Field) → encode_all (fs ++ gs) ≡ encode_all fs ++ encode_all gs
  unfolding encode_all
  encode_all-append [] gs = refl
  encode_all-append (f ∷ fs) gs =
      ap (λ t. encode f ++ t) (encode_all-append fs gs)
      ∙ sym (append_assoc (encode f) (encode_all fs) (encode_all gs))

  append_varint-encode :
      (b : Bytes) (num v : ℕ)
      → w.append_varint (w.append_tag b num varint_type) v ≡ b ++ encode (varint_field num v)
  unfolding encode
  append_varint-encode b num v =
      rw
        (
          laws.varint (w.append_tag b num varint_type) v,
          laws.tag b num varint_type,
          laws.varint (w.append_tag [] num varint_type) v,
        )
        (append_assoc b _ _)

  append_bytes-encode :
      (b s : Bytes) (num : ℕ)
      → w.append_bytes (w.append_tag b num bytes_type) s ≡ b ++ encode (bytes_field num s)
  unfolding encode
  append_bytes-encode b s num =
      rw
        (
          laws.bytes (w.append_tag b num bytes_type) s,
          laws.tag b num bytes_type,
          laws.bytes (w.append_tag [] num bytes_type) s,
        )
        (append_assoc b _ _)

  single : (b : Bytes) (f : Field) → b ++ encode f ≡ b ++ encode_all (f ∷ [])
  unfolding encode_all
  single b f = ap (λ t. b ++ t) (sym (append-nil (encode f)))

  no_field : (b : Bytes) → b ≡ b ++ encode_all []
  unfolding encode_all
  no_field b = sym (append-nil b)

  unless-fields :
      (empty : Bool) (b c : Bytes) (f : Field)
      → c ≡ b ++ encode f
      → (if empty then b else c) ≡ b ++ encode_all (if empty then [] else f ∷ [])
  unfolding encode_all
  unless-fields true b c f h = sym (append-nil b)
  unless-fields false b c f h = h ∙ single b f

  append_messages-fields :
      (b : Bytes) (num : ℕ) (ms : List Bytes)
      → append_messages b num ms ≡ b ++ encode_all (map (bytes_field num) ms)
  unfolding append_messages append_message_field encode_all
  append_messages-fields b num [] = sym (append-nil b)
  append_messages-fields b num (m ∷ ms) =
      rw
        (
          append_messages-fields (w.append_bytes (w.append_tag b num bytes_type) m) num ms,
          append_bytes-encode b m num,
        )
        (append_assoc b _ _)

  append_part-fields : (b : Bytes) (p : Part) → append_part b p ≡ b ++ encode_all (part_fields p)
  unfolding append_part append_varint_field append_string_field append_flag
  append_part-fields b (number num v) =
      unless-fields (v == 0) b _ (varint_field num v) (append_varint-encode b num v)
  append_part-fields b (text num s) =
      unless-fields (is_empty s) b _ (bytes_field num s) (append_bytes-encode b s num)
  append_part-fields b (flag num true) =
      append_varint-encode b num 1 ∙ single b (varint_field num 1)
  append_part-fields b (flag num false) = no_field b
  append_part-fields b (messages num ms) = append_messages-fields b num ms

  pub append_parts-fields :
      (b : Bytes) (ps : List Part) → append_parts b ps ≡ b ++ encode_all (parts_fields ps)
  unfolding append_parts encode_all
  append_parts-fields b [] = sym (append-nil b)
  append_parts-fields b (p ∷ ps) =
      rw
        (
          append_parts-fields (append_part b p) ps,
          append_part-fields b p,
          encode_all-append (part_fields p) (parts_fields ps),
        )
        (append_assoc b _ _)

  -- walkVarints and walkWire visit exactly the fields that the parts leave, in their order.
  pub walk_varints-append_parts :
      {S : Type 0} (ps : List Part) (visit : Visitor S) (s : S)
      → All IsPart ps
      → walk_varints (append_parts [] ps) visit s
        ≡ visit_all (visit_field visit) (parts_fields ps) s
  unfolding walk_varints
  walk_varints-append_parts ps visit s h = rw (append_parts-fields [] ps) (
      loop-encode_all laws (varints_round visit) (visit_field visit) (parts_fields ps) _ s
        (varints_round-encode laws visit) (parts_fields-IsField ps h) (omega arith))

  pub walk_wire-append_parts :
      {S : Type 0} (ps : List Part) (want : ℕ) (visit : Bytes → S → S) (s : S)
      → All IsPart ps
      → walk_wire (append_parts [] ps) want visit s
        ≡ visit_all (visit_wire want visit) (parts_fields ps) s
  unfolding walk_wire
  walk_wire-append_parts ps want visit s h = rw (append_parts-fields [] ps) (
      loop-encode_all laws (wire_round want visit) (visit_wire want visit) (parts_fields ps) _ s
        (wire_round-encode laws want visit) (parts_fields-IsField ps h) (omega arith))
