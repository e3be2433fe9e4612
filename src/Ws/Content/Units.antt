-- ===== src/Ws/Content/Units.antt =====
-- lib/ws/content.go: utf16Len, which ranges over the runes of a string.
use mezon_go_sdk_turbo.Prelude.{ℕ, zero, suc, ◌+◌, ◌==◌, List, [], ◌∷◌, Bytes, if◌then◌else◌}
use mezon_go_sdk_turbo.Ws.Json.{following}

abbrev pub take {ℓ} : {A : Type ℓ} → ℕ → List A → List A
take zero xs = []
take (suc n) [] = []
take (suc n) (x ∷ xs) = x ∷ take n xs

-- The units of a rune: a rune above 0xFFFF has three bytes after its first one.
unfoldable pub rune_units : ℕ → Bytes → ℕ
unfolding following
rune_units c cs = if following c cs == 3 then 2 else 1

-- `skip` bytes of a rune are left.
unfoldable pub units_from : ℕ → Bytes → ℕ
unfolding rune_units following
units_from skip [] = 0
units_from zero (c ∷ cs) = rune_units c cs + units_from (following c cs) cs
units_from (suc skip) (c ∷ cs) = units_from skip cs

unfoldable pub utf16_len : Bytes → ℕ
unfolding units_from
utf16_len s = units_from 0 s
