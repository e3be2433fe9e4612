-- ===== src/Ws/Enough.antt =====
-- lib/ws/decode.go: the loops of walkVarints and walkWire take as many rounds as they need.
use mezon_go_sdk_turbo.Prelude.{
  ℕ, suc, ◌≤◌, ◌==◌, ◌≡◌, refl, ap, Bool, true, false, ◌&&◌, Option, none, some, arith, Bytes, drop,
  length, length-drop, if◌then◌else◌,
}
use mezon_go_sdk_turbo.Proto.{
  ProtoWire, IsProtoWire, Consumed, failed, took, varint_type, bytes_type,
}
use mezon_go_sdk_turbo.Ws.Walk.{
  Visitor, loop, then_visit, varints_field, varints_tagged, wire_tagged, varints_round,
  walk_varints, wire_field, wire_round, walk_wire,
}
use mezon_go_sdk_turbo.Ws.Fields.{loop_enough}

then_visit_shrinks :
    {S A : Type 0} (visit : A → S → S) (b c : Bytes) (s t : S) (r : Consumed A)
    → then_visit visit b s r ≡ some (c, t)
    → length c ≤ length b
then_visit_shrinks visit b c s t (failed err) h = cc
then_visit_shrinks visit b c s t (took a n) h =
    let same : drop n b ≡ c = cc in omega (arith, length-drop n b, ap length same)

either_shrinks :
    {A : Type 0} (i : Bool) (P : A → Type 0) (x y : A) → P x → P y → P (if i then x else y)
either_shrinks true P x y px py = px
either_shrinks false P x y px py = py

-- A round gives no more bytes than it has.
abbrev Shrinks : {S : Type 0} → Bytes → Option (Bytes × S) → Type 0
Shrinks {S} b o = (c : Bytes) (t : S) → o ≡ some (c, t) → length c ≤ length b

-- After a tag of at least one byte, the rest is shorter.
tag_shortens :
    {S : Type 0} (b c : Bytes) (n : ℕ) (o : Option (Bytes × S)) (t : S)
    → 1 ≤ length b
    → 1 ≤ n
    → Shrinks (drop n b) o
    → o ≡ some (c, t)
    → suc (length c) ≤ length b
tag_shortens b c n o t l h shrinks e = omega (arith, length-drop n b, shrinks c t e)

module _ ⦃w : ProtoWire⦄ {S : Type 0} where
  varints_field-Shrinks :
      (visit : Visitor S) (num typ : ℕ) (b : Bytes) (s : S)
      → Shrinks b (varints_field visit num typ b s)
  unfolding varints_field
  varints_field-Shrinks visit num typ b s =
      either_shrinks (typ == varint_type) (Shrinks b) _ _
        (λ c t. then_visit_shrinks (λ v. visit num v none) b c s t (w.consume_varint b))
        (either_shrinks (typ == bytes_type) (Shrinks b) _ _
          (λ c t. then_visit_shrinks (λ v. visit num 0 (some v)) b c s t (w.consume_bytes b))
          (λ c t. then_visit_shrinks (λ u s. s) b c s t (w.consume_field_value num typ b)))

  wire_field-Shrinks :
      (want : ℕ) (visit : Bytes → S → S) (num typ : ℕ) (b : Bytes) (s : S)
      → Shrinks b (wire_field want visit num typ b s)
  unfolding wire_field
  wire_field-Shrinks want visit num typ b s =
      either_shrinks (num == want && typ == bytes_type) (Shrinks b) _ _
        (λ c t. then_visit_shrinks visit b c s t (w.consume_bytes b))
        (λ c t. then_visit_shrinks (λ u s. s) b c s t (w.consume_field_value num typ b))

module _ ⦃w : ProtoWire⦄ (laws : IsProtoWire w) {S : Type 0} where
  varints_tagged-Shortens :
      (visit : Visitor S) (b c : Bytes) (s t : S) (r : Consumed (ℕ × ℕ))
      → 1 ≤ length b
      → w.consume_tag b ≡ r
      → varints_tagged visit b s r ≡ some (c, t)
      → suc (length c) ≤ length b
  unfolding varints_tagged
  varints_tagged-Shortens visit b c s t (failed err) l e h = cc
  varints_tagged-Shortens visit b c s t (took (num, typ) n) l e h =
      tag_shortens b c n _ t l (laws.tag_takes b num typ n e)
        (varints_field-Shrinks visit num typ (drop n b) s) h

  wire_tagged-Shortens :
      (want : ℕ) (visit : Bytes → S → S) (b c : Bytes) (s t : S) (r : Consumed (ℕ × ℕ))
      → 1 ≤ length b
      → w.consume_tag b ≡ r
      → wire_tagged want visit b s r ≡ some (c, t)
      → suc (length c) ≤ length b
  unfolding wire_tagged
  wire_tagged-Shortens want visit b c s t (failed err) l e h = cc
  wire_tagged-Shortens want visit b c s t (took (num, typ) n) l e h =
      tag_shortens b c n _ t l (laws.tag_takes b num typ n e)
        (wire_field-Shrinks want visit num typ (drop n b) s) h

  -- On any frame, well formed or not, walkVarints and walkWire return after at most as many rounds
  -- as the frame has bytes: more rounds give the same.
  pub walks_enough :
      (fuel : ℕ) (b : Bytes) (want : ℕ) (visit : Visitor S) (on_item : Bytes → S → S) (s : S)
      → length b ≤ fuel
      → (loop (varints_round visit) fuel b s ≡ walk_varints b visit s)
        × (loop (wire_round want on_item) fuel b s ≡ walk_wire b want on_item s)
  unfolding walk_varints walk_wire
  walks_enough fuel b want visit on_item s h = (
    loop_enough (varints_round visit) fuel b s
        (λ b c s t l e.
          varints_tagged-Shortens visit b c s t (w.consume_tag b) l refl
            (unfold varints_round in e))
        h,
    loop_enough (wire_round want on_item) fuel b s
        (λ b c s t l e.
          wire_tagged-Shortens want on_item b c s t (w.consume_tag b) l refl
            (unfold wire_round in e))
        h,
  )
