-- ===== src/Prelude/Ascii.antt =====
-- The bytes of the ASCII literals in the source.
use Prim.Native.Char.{code}
use Prim.Native.String.{String, [], ◌∷◌}
use mathlib.Core.List.{[] as []ᴸ, ◌∷◌ as ◌∷ᴸ◌}
use mezon_go_sdk_turbo.Prelude.Decimal.{Bytes}

unfoldable pub ascii : String → Bytes
ascii [] = []ᴸ
ascii (c ∷ s) = code c ∷ᴸ ascii s
