-- ===== src/Rest/Ids.antt =====
-- lib/rest/clans.go: the ids that ListClans and ListChannels keep.
use mezon_go_sdk_turbo.Prelude.{
  ℕ, suc, Parsed, parsed, syntax_error, range_error, parse_uint, parse_uint-format_uint, ◌≤◌, ◌≡◌,
  refl, ap, inl, inr, true, [], ◌∷◌, Bytes, IsU64, is_empty, format_uint, arith, Bool-cases,
}
use mezon_go_sdk_turbo.Types.{is_zero}
use mezon_go_sdk_turbo.Rest.{has_id}

zero_text : (s : Bytes) → is_zero s ≡ true → s ≡ 48 ∷ []
zero_text [] h = ground arith
zero_text (c ∷ []) h = let c_zero : c ≡ 48 = ground (arith, h) in rw c_zero refl
zero_text (c ∷ d ∷ s) h = ground arith

empty_text : (s : Bytes) → is_empty s ≡ true → s ≡ []
empty_text [] h = refl
empty_text (c ∷ s) h = ground arith

number_of : Parsed → ℕ
number_of (parsed v) = suc v
number_of syntax_error = 0
number_of range_error = 0

number_zero : number_of (parse_uint (48 ∷ [])) ≡ 1
unfolding parse_uint number_of
number_zero = refl

number_empty : number_of (parse_uint []) ≡ 0
unfolding parse_uint number_of
number_empty = refl

-- A number other than 0 is a text that ListClans keeps.
pub has_id-format_uint : (v : ℕ) → IsU64 v → 1 ≤ v → has_id (format_uint v) ≡ true
unfolding number_of
has_id-format_uint v u l =
    let read : number_of (parse_uint (format_uint v)) ≡ suc v =
      ap number_of (parse_uint-format_uint v u) in
    elim (Bool-cases (is_empty (format_uint v))) [
      | inl no_text ↦
          let same = ap (λ s. number_of (parse_uint s)) (empty_text (format_uint v) no_text) in
          absurd (omega (arith, read, same, number_empty))
      | inr some_text ↦ elim (Bool-cases (is_zero (format_uint v))) [
        | inl zero_v ↦
            let same = ap (λ s. number_of (parse_uint s)) (zero_text (format_uint v) zero_v) in
            absurd (omega (arith, read, same, number_zero))
        | inr other ↦ rw (some_text, other) refl
      ]
    ]
