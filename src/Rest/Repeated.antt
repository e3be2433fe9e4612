-- ===== src/Rest/Repeated.antt =====
-- lib/rest/clans.go: eachRepeated on a payload of fields.
use mezon_go_sdk_turbo.Prelude.{
  ◌==◌, ◌≡◌, refl, sym, ap, ◌∙◌, inl, inr, List, [], ◌++◌, none, Bytes, All, All-of_every,
  drop-append, length, arith, Bool-cases,
}
use mathlib.Core.List.{append-nil}
use mezon_go_sdk_turbo.Proto.{ProtoWire, IsProtoWire, varint_type, bytes_type}
use mezon_go_sdk_turbo.Ws.Fields.{
  Field, varint_field, bytes_field, IsField, encode, encode_all, visit_wire, visit_all,
  encode-varint, encode-bytes,
}
use mezon_go_sdk_turbo.Ws.Channel.{goes, rounds}
use mezon_go_sdk_turbo.Ws.Rounds.{and_false, rounds-encode_all, rounds_done}
use mezon_go_sdk_turbo.Rest.{repeated_field, repeated_round, each_repeated}

module _ ⦃w : ProtoWire⦄ (laws : IsProtoWire w) where
  repeated_round-encode :
      {S : Type 0} (visit : Bytes → S → S) (f : Field) (rest : Bytes) (s : S)
      → IsField f
      → Unit {0}
      → repeated_round visit (encode f ++ rest) s ≡ goes rest (visit_wire 1 visit f s)
  unfolding repeated_round repeated_field
  repeated_round-encode visit (varint_field num v) rest s h u =
      rw
        (
          encode-varint laws num v rest,
          laws.read_tag num varint_type (w.append_varint [] v ++ rest) h.0 (omega arith),
          drop-append (w.append_tag [] num varint_type) (w.append_varint [] v ++ rest),
          and_false (num == 1),
          laws.skip_varint num v _ (w.append_varint [] v ++ rest) (laws.read_varint v rest h.1),
          drop-append (w.append_varint [] v) rest,
        )
        refl
  repeated_round-encode visit (bytes_field num b) rest s h u =
      rw
        (
          encode-bytes laws num b rest,
          laws.read_tag num bytes_type (w.append_bytes [] b ++ rest) h.0 (omega arith),
          drop-append (w.append_tag [] num bytes_type) (w.append_bytes [] b ++ rest),
        )
        (elim (Bool-cases (num == 1)) [
          | inl one ↦ rw (one, laws.read_bytes b rest, drop-append (w.append_bytes [] b) rest) refl
          | inr other ↦
              rw
                (
                  other,
                  laws.skip_bytes num _ b (w.append_bytes [] b ++ rest) (laws.read_bytes b rest),
                  drop-append (w.append_bytes [] b) rest,
                )
                refl
        ])

  pub each_repeated-encode_all :
      {S : Type 0} (visit : Bytes → S → S) (fs : List Field) (s : S)
      → All IsField fs
      → each_repeated visit (encode_all fs) s ≡ (visit_all (visit_wire 1 visit) fs s, none)
  unfolding each_repeated
  each_repeated-encode_all visit fs s h =
      let whole = append-nil (encode_all fs) in
      let (left, (enough, e)) =
        rounds-encode_all laws (repeated_round visit) (λ s. (s, none)) (visit_wire 1 visit)
          (λ f. Unit {0}) fs [] (length (encode_all fs)) s (repeated_round-encode visit) h
          (All-of_every _ (λ f. tt) fs) (omega (arith, ap length whole)) in
      ap (λ b. rounds (repeated_round visit) (λ s. (s, none)) (length (encode_all fs)) b s)
        (sym whole)
      ∙ e
      ∙ rounds_done (repeated_round visit) (λ s. (s, none)) left
          (visit_all (visit_wire 1 visit) fs s)
