-- ===== src/Ws/Fields.antt =====
-- lib/ws/wire.go and lib/ws/decode.go: frames as lists of fields, which the encoders append and the
-- walkers visit.
use mezon_go_sdk_turbo.Prelude.{
  ℕ, zero, suc, ◌≤◌, ◌<◌, ◌≡◌, refl, sym, ◌∙◌, inl, inr, ◌==◌, List, [], ◌∷◌, ◌++◌, Option, none,
  some, arith, All, Bytes, IsU64, drop-append, length, length-append, Bool-cases, Option-cases,
  if◌then◌else◌,
}
use mathlib.Core.List.{append_assoc}
use mezon_go_sdk_turbo.Proto.{ProtoWire, IsProtoWire, IsNumber, varint_type, bytes_type}
use mezon_go_sdk_turbo.Ws.Walk.{
  Visitor, loop, then_visit, varints_field, varints_round, wire_field, wire_round,
}

pub data Field : Type 0 where
  varint_field : ℕ → ℕ → Field
  bytes_field : ℕ → Bytes → Field

abbrev pub IsField : Field → Type 0
IsField (varint_field num v) = IsNumber num × IsU64 v
IsField (bytes_field num s) = IsNumber num × Unit {0}

-- What a visitor of walkVarints does at a field.
abbrev pub visit_field : {S : Type 0} → Visitor S → Field → S → S
visit_field visit (varint_field num v) s = visit num v none s
visit_field visit (bytes_field num b) s = visit num 0 (some b) s

abbrev pub visit_all : {S : Type 0} → (Field → S → S) → List Field → S → S
visit_all visit [] s = s
visit_all visit (f ∷ fs) s = visit_all visit fs (visit f s)

-- A visitor of walkWire, at the occurrences of the field `want`.
abbrev pub visit_wire : {S : Type 0} → ℕ → (Bytes → S → S) → Field → S → S
visit_wire want visit (varint_field num v) s = s
visit_wire want visit (bytes_field num b) s = if num == want then visit b s else s

module _ ⦃w : ProtoWire⦄ where
  unfoldable pub encode : Field → Bytes
  encode (varint_field num v) = w.append_varint (w.append_tag [] num varint_type) v
  encode (bytes_field num b) = w.append_bytes (w.append_tag [] num bytes_type) b

  unfoldable pub encode_all : List Field → Bytes
  unfolding encode
  encode_all [] = []
  encode_all (f ∷ fs) = encode f ++ encode_all fs

module _ {S : Type 0} (round : Bytes → S → Option (Bytes × S)) where
  loop_round :
      (fuel : ℕ) (b c : Bytes) (s t : S)
      → 1 ≤ length b
      → round b s ≡ some (c, t)
      → loop round (suc fuel) b s ≡ loop round fuel c t
  unfolding loop
  loop_round fuel [] c s t n h = ground arith
  loop_round fuel (x ∷ b) c s t n h = rw (loop, h) refl

  -- A round that shortens the frame leaves fuel enough.
  abbrev pub Shortens : Type 0
  Shortens =
      (b c : Bytes) (s t : S) → 1 ≤ length b → round b s ≡ some (c, t) → suc (length c) ≤ length b

  loop_stops : (fuel : ℕ) (b : Bytes) (s : S) → round b s ≡ none → loop round fuel b s ≡ s
  unfolding loop
  loop_stops zero b s h = refl
  loop_stops (suc fuel) [] s h = refl
  loop_stops (suc fuel) (x ∷ b) s h = rw (loop, h) refl

  loop_same :
      (f g : ℕ) (b : Bytes) (s : S)
      → Shortens
      → length b ≤ f
      → length b ≤ g
      → loop round f b s ≡ loop round g b s
  unfolding loop
  loop_same zero zero [] s short hf hg = refl
  loop_same zero (suc g) [] s short hf hg = refl
  loop_same (suc f) zero [] s short hf hg = refl
  loop_same (suc f) (suc g) [] s short hf hg = refl
  loop_same zero g (x ∷ b) s short hf hg = absurd (omega arith)
  loop_same (suc f) zero (x ∷ b) s short hf hg = absurd (omega arith)
  loop_same (suc f) (suc g) (x ∷ b) s short hf hg = elim (Option-cases (round (x ∷ b) s)) [
    | inl e ↦ loop_stops (suc f) (x ∷ b) s e ∙ sym (loop_stops (suc g) (x ∷ b) s e)
    | inr ((c, t), e) ↦
        let less = short (x ∷ b) c s t (omega arith) e in
        let next = loop_same f g c t short (omega arith) (omega arith) in
        loop_round f (x ∷ b) c s t (omega arith) e
        ∙ next
        ∙ sym (loop_round g (x ∷ b) c s t (omega arith) e)
  ]

  pub loop_enough :
      (fuel : ℕ) (b : Bytes) (s : S)
      → Shortens
      → length b ≤ fuel
      → loop round fuel b s ≡ loop round (length b) b s
  loop_enough fuel b s short h = loop_same fuel (length b) b s short h (omega arith)

module _ ⦃w : ProtoWire⦄ (laws : IsProtoWire w) where
  tag_length : (num typ : ℕ) → IsNumber num → typ < 8 → 1 ≤ length (w.append_tag [] num typ)
  tag_length num typ n t =
      laws.tag_takes (w.append_tag [] num typ ++ []) num typ _ (laws.read_tag num typ [] n t)

  pub encode-varint :
      (num v : ℕ) (rest : Bytes)
      → encode (varint_field num v) ++ rest
        ≡ w.append_tag [] num varint_type ++ (w.append_varint [] v ++ rest)
  unfolding encode
  encode-varint num v rest =
      rw (laws.varint (w.append_tag [] num varint_type) v) (append_assoc _ _ rest)

  pub encode-bytes :
      (num : ℕ) (b rest : Bytes)
      → encode (bytes_field num b) ++ rest
        ≡ w.append_tag [] num bytes_type ++ (w.append_bytes [] b ++ rest)
  unfolding encode
  encode-bytes num b rest =
      rw (laws.bytes (w.append_tag [] num bytes_type) b) (append_assoc _ _ rest)

  pub length-encode : (f : Field) → IsField f → 1 ≤ length (encode f)
  unfolding encode
  length-encode (varint_field num v) h = rw (laws.varint (w.append_tag [] num varint_type) v) (
      omega (
        arith,
        length-append (w.append_tag [] num varint_type) (w.append_varint [] v),
        tag_length num varint_type h.0 (omega arith),
      ))
  length-encode (bytes_field num b) h = rw (laws.bytes (w.append_tag [] num bytes_type) b) (
      omega (
        arith,
        length-append (w.append_tag [] num bytes_type) (w.append_bytes [] b),
        tag_length num bytes_type h.0 (omega arith),
      ))

  pub varints_round-encode :
      {S : Type 0} (visit : Visitor S) (f : Field) (rest : Bytes) (s : S)
      → IsField f
      → varints_round visit (encode f ++ rest) s ≡ some (rest, visit_field visit f s)
  unfolding varints_round varints_field
  varints_round-encode visit (varint_field num v) rest s h =
      rw
        (
          encode-varint num v rest,
          laws.read_tag num varint_type (w.append_varint [] v ++ rest) h.0 (omega arith),
          drop-append (w.append_tag [] num varint_type) (w.append_varint [] v ++ rest),
          laws.read_varint v rest h.1,
          drop-append (w.append_varint [] v) rest,
        )
        refl
  varints_round-encode visit (bytes_field num b) rest s h =
      rw
        (
          encode-bytes num b rest,
          laws.read_tag num bytes_type (w.append_bytes [] b ++ rest) h.0 (omega arith),
          drop-append (w.append_tag [] num bytes_type) (w.append_bytes [] b ++ rest),
          laws.read_bytes b rest,
          drop-append (w.append_bytes [] b) rest,
        )
        refl

  pub wire_round-encode :
      {S : Type 0} (want : ℕ) (visit : Bytes → S → S) (f : Field) (rest : Bytes) (s : S)
      → IsField f
      → wire_round want visit (encode f ++ rest) s ≡ some (rest, visit_wire want visit f s)
  unfolding wire_round wire_field
  wire_round-encode want visit (varint_field num v) rest s h =
      rw
        (
          encode-varint num v rest,
          laws.read_tag num varint_type (w.append_varint [] v ++ rest) h.0 (omega arith),
          drop-append (w.append_tag [] num varint_type) (w.append_varint [] v ++ rest),
        )
        (elim (Bool-cases (num == want)) [
          | inl hit ↦ rw (hit, skipped) refl
          | inr miss ↦ rw (miss, skipped) refl
        ])
    where
      skipped :
          then_visit
            (λ u s. s)
            (w.append_varint [] v ++ rest)
            s
            (w.consume_field_value num varint_type (w.append_varint [] v ++ rest))
          ≡ some (rest, s)
      skipped =
          rw
            (
              laws.skip_varint num v _ (w.append_varint [] v ++ rest) (laws.read_varint v rest h.1),
              drop-append (w.append_varint [] v) rest,
            )
            refl
  wire_round-encode want visit (bytes_field num b) rest s h =
      rw
        (
          encode-bytes num b rest,
          laws.read_tag num bytes_type (w.append_bytes [] b ++ rest) h.0 (omega arith),
          drop-append (w.append_tag [] num bytes_type) (w.append_bytes [] b ++ rest),
        )
        (elim (Bool-cases (num == want)) [
          | inl hit ↦ rw (hit, laws.read_bytes b rest, drop-append (w.append_bytes [] b) rest) refl
          | inr miss ↦
              rw
                (
                  miss,
                  laws.skip_bytes num _ b (w.append_bytes [] b ++ rest) (laws.read_bytes b rest),
                  drop-append (w.append_bytes [] b) rest,
                )
                refl
        ])

  -- A loop whose round handles one field handles them all.
  pub loop-encode_all :
      {S : Type 0} (round : Bytes → S → Option (Bytes × S)) (visit : Field → S → S)
      (fs : List Field) (fuel : ℕ) (s : S)
      → ((f : Field) (rest : Bytes) (s : S)
          → IsField f
          → round (encode f ++ rest) s ≡ some (rest, visit f s))
      → All IsField fs
      → length (encode_all fs) ≤ fuel
      → loop round fuel (encode_all fs) s ≡ visit_all visit fs s
  unfolding encode_all loop
  loop-encode_all round visit [] zero s one h n = refl
  loop-encode_all round visit [] (suc fuel) s one h n = refl
  loop-encode_all round visit (f ∷ fs) zero s one h n =
      absurd (omega (arith, length-encode f h.0, length-append (encode f) (encode_all fs)))
  loop-encode_all round visit (f ∷ fs) (suc fuel) s one h n =
      let size = length-append (encode f) (encode_all fs) in
      let some_byte = length-encode f h.0 in
      loop_round round fuel (encode f ++ encode_all fs) (encode_all fs) s (visit f s)
        (omega (arith, size, some_byte)) (one f (encode_all fs) s h.0)
      ∙ loop-encode_all round visit fs fuel (visit f s) one h.1 (omega (arith, size, some_byte))
