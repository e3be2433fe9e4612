-- ===== src/Ws/Walk.antt =====
-- lib/ws/decode.go: walkVarints and walkWire. The captured variables that a visitor changes are a
-- state `S`. A round takes at least the byte of a tag, so as many rounds as bytes are enough.
use mezon_go_sdk_turbo.Prelude.{
  ℕ, zero, suc, ◌==◌, ◌&&◌, [], ◌∷◌, Option, none, some, Bytes, drop, length, if◌then◌else◌,
}
use mezon_go_sdk_turbo.Proto.{ProtoWire, Consumed, failed, took, varint_type, bytes_type}

-- `visit(num, v, sv)`, with a nil `sv` as `none`.
abbrev pub Visitor : Type 0 → Type 0
Visitor S = ℕ → ℕ → Option Bytes → S → S

-- A loop whose round gives the rest of the frame and the state, or returns.
unfoldable pub loop : {S : Type 0} → (Bytes → S → Option (Bytes × S)) → ℕ → Bytes → S → S
loop round zero b s = s
loop round (suc fuel) [] s = s
loop round (suc fuel) (x ∷ xs) s = elim (round (x ∷ xs) s) [
  | none ↦ s
  | some (b, t) ↦ loop round fuel b t
]

-- The end of a round after a consume function: `visit`, and `b = b[n:]`; a negative number returns.
abbrev pub then_visit : {S A : Type 0} → (A → S → S) → Bytes → S → Consumed A → Option (Bytes × S)
then_visit visit b s (failed err) = none
then_visit visit b s (took a n) = some (drop n b, visit a s)

module _ ⦃w : ProtoWire⦄ {S : Type 0} where
  unfoldable pub varints_field : Visitor S → ℕ → ℕ → Bytes → S → Option (Bytes × S)
  varints_field visit num typ b s =
      if typ == varint_type
      then then_visit (λ v. visit num v none) b s (w.consume_varint b)
      else if typ == bytes_type
      then then_visit (λ v. visit num 0 (some v)) b s (w.consume_bytes b)
      else then_visit (λ u s. s) b s (w.consume_field_value num typ b)

  unfoldable pub varints_tagged : Visitor S → Bytes → S → Consumed (ℕ × ℕ) → Option (Bytes × S)
  unfolding varints_field
  varints_tagged visit b s (failed err) = none
  varints_tagged visit b s (took (num, typ) n) = varints_field visit num typ (drop n b) s

  unfoldable pub varints_round : Visitor S → Bytes → S → Option (Bytes × S)
  unfolding varints_tagged
  varints_round visit b s = varints_tagged visit b s (w.consume_tag b)

  unfoldable pub walk_varints : Bytes → Visitor S → S → S
  unfolding loop varints_round
  walk_varints b visit s = loop (varints_round visit) (length b) b s

  unfoldable pub wire_field : ℕ → (Bytes → S → S) → ℕ → ℕ → Bytes → S → Option (Bytes × S)
  wire_field want visit num typ b s =
      if num == want && typ == bytes_type
      then then_visit visit b s (w.consume_bytes b)
      else then_visit (λ u s. s) b s (w.consume_field_value num typ b)

  unfoldable pub wire_tagged :
      ℕ → (Bytes → S → S) → Bytes → S → Consumed (ℕ × ℕ) → Option (Bytes × S)
  unfolding wire_field
  wire_tagged want visit b s (failed err) = none
  wire_tagged want visit b s (took (num, typ) n) = wire_field want visit num typ (drop n b) s

  unfoldable pub wire_round : ℕ → (Bytes → S → S) → Bytes → S → Option (Bytes × S)
  unfolding wire_tagged
  wire_round want visit b s = wire_tagged want visit b s (w.consume_tag b)

  unfoldable pub walk_wire : Bytes → ℕ → (Bytes → S → S) → S → S
  unfolding loop wire_round
  walk_wire b want visit s = loop (wire_round want visit) (length b) b s
