-- ===== src/Ws/Rounds.antt =====
-- lib/ws/decode.go: the loops of Ws/Channel on frames of fields.
use mezon_go_sdk_turbo.Prelude.{
  ℕ, zero, suc, ◌≤◌, ◌≡◌, refl, ap, ◌∙◌, Bool, true, false, ◌&&◌, List, [], ◌∷◌, ◌++◌, arith, All,
  Bytes, length, length-append,
}
use mathlib.Core.List.{append_assoc}
use mezon_go_sdk_turbo.Proto.{ProtoWire, IsProtoWire}
use mezon_go_sdk_turbo.Ws.Fields.{Field, IsField, encode, encode_all, visit_all, length-encode}
use mezon_go_sdk_turbo.Ws.Channel.{Round, goes, returns, rounds}

pub and_false : (b : Bool) → (b && false) ≡ false
and_false true = refl
and_false false = refl

module _ {S R : Type 0} (round : Bytes → S → Round S R) (done : S → R) where
  pub rounds_go :
      (fuel : ℕ) (b c : Bytes) (s t : S)
      → 1 ≤ length b
      → round b s ≡ goes c t
      → rounds round done (suc fuel) b s ≡ rounds round done fuel c t
  unfolding rounds
  rounds_go fuel [] c s t n h = ground arith
  rounds_go fuel (x ∷ b) c s t n h = rw (rounds, h) refl

  pub rounds_return :
      (fuel : ℕ) (b : Bytes) (s : S) (r : R)
      → 1 ≤ length b
      → length b ≤ fuel
      → round b s ≡ returns r
      → rounds round done fuel b s ≡ r
  unfolding rounds
  rounds_return zero [] s r n f h = ground arith
  rounds_return zero (x ∷ b) s r n f h = absurd (omega arith)
  rounds_return (suc fuel) [] s r n f h = ground arith
  rounds_return (suc fuel) (x ∷ b) s r n f h = rw (rounds, h) refl

  pub rounds_done : (fuel : ℕ) (s : S) → rounds round done fuel [] s ≡ done s
  unfolding rounds
  rounds_done zero s = refl
  rounds_done (suc fuel) s = refl

module _ ⦃w : ProtoWire⦄ (laws : IsProtoWire w) where
  -- Rounds that each handle a field handle the fields, and go on with what follows.
  pub rounds-encode_all :
      {S R : Type 0} (round : Bytes → S → Round S R) (done : S → R) (step : Field → S → S)
      (Handled : Field → Type 0) (fs : List Field) (rest : Bytes) (fuel : ℕ) (s : S)
      → ((f : Field) (rest : Bytes) (s : S)
          → IsField f
          → Handled f
          → round (encode f ++ rest) s ≡ goes rest (step f s))
      → All IsField fs
      → All Handled fs
      → length (encode_all fs ++ rest) ≤ fuel
      → (left : ℕ) × ((length rest ≤ left)
          × (rounds round done fuel (encode_all fs ++ rest) s
              ≡ rounds round done left rest (visit_all step fs s)))
  unfolding encode_all
  rounds-encode_all round done step Handled [] rest fuel s one h a n = (fuel, (n, refl))
  rounds-encode_all round done step Handled (f ∷ fs) rest zero s one h a n = absurd (
      omega (
        arith,
        length-encode laws f h.0,
        length-append (encode f) (encode_all fs),
        length-append (encode f ++ encode_all fs) rest,
      ))
  rounds-encode_all round done step Handled (f ∷ fs) rest (suc fuel) s one h a n =
      let size = length-append (encode f) (encode_all fs ++ rest) in
      let some_byte = length-encode laws f h.0 in
      let same = ap length (append_assoc (encode f) (encode_all fs) rest) in
      let (left, (enough, e)) =
        rounds-encode_all round done step Handled fs rest fuel (step f s) one h.1 a.1
          (omega (arith, size, some_byte, same)) in
      (
        left,
        (
          enough,
          ap (λ t. rounds round done (suc fuel) t s) (append_assoc (encode f) (encode_all fs) rest)
              ∙ rounds_go round done fuel (encode f ++ (encode_all fs ++ rest))
                  (encode_all fs ++ rest) s (step f s) (omega (arith, size, some_byte))
                  (one f (encode_all fs ++ rest) s h.0 a.0)
              ∙ e,
        ),
      )
