-- ===== src/Ws/Json.antt =====
-- encoding/json's Marshal of strings, int32 numbers and slices of structs, as lib/ws uses it.
use mezon_go_sdk_turbo.Prelude.{
  ℕ, zero, suc, ◌+◌, ◌-◌, ◌/◌, ◌%◌, ◌^◌, ◌==◌, ltb, leb, Bool, true, false, not, ◌&&◌, ◌||◌, List,
  [], ◌∷◌, ◌++◌, String, Bytes, ascii, format_uint, if◌then◌else◌,
}

-- An int32 as its bit pattern, in decimal with a sign.
unfoldable pub int32_text : ℕ → Bytes
unfolding format_uint
int32_text v = if ltb v (2 ^ 31) then format_uint v else 45 ∷ format_uint (2 ^ 32 - v)

abbrev between : ℕ → ℕ → ℕ → Bool
between lo hi c = leb lo c && leb c hi

-- Whether bytes begin with so many continuation bytes, of which the first is between `lo` and `hi`.
abbrev tail : ℕ → ℕ → ℕ → Bytes → Bool
tail zero lo hi bs = true
tail (suc n) lo hi [] = false
tail (suc n) lo hi (b ∷ bs) = between lo hi b && tail n 128 191 bs

-- utf8.DecodeRune: how many bytes follow the first byte of a valid rune, or none of a valid one.
abbrev rune_tail : ℕ → Bytes → ℕ
rune_tail c bs =
    if between 194 223 c && tail 1 128 191 bs
    then 1
    else if c == 224 && tail 2 160 191 bs
    then 2
    else if (between 225 236 c || between 238 239 c) && tail 2 128 191 bs
    then 2
    else if c == 237 && tail 2 128 159 bs
    then 2
    else if c == 240 && tail 3 144 191 bs
    then 3
    else if between 241 243 c && tail 3 128 191 bs
    then 3
    else if c == 244 && tail 3 128 143 bs
    then 3
    else 0

-- U+2028 and U+2029.
line_end : ℕ → Bytes → Bool
line_end c [] = false
line_end c (d ∷ []) = false
line_end c (d ∷ e ∷ bs) = c == 226 && d == 128 && between 168 169 e

hex : ℕ → ℕ
hex n = if ltb n 10 then 48 + n else 87 + n

-- The escapes of an ASCII byte, those for HTML included.
unfoldable escaped_ascii : ℕ → Bytes
unfolding ascii hex
escaped_ascii c =
    if c == 34 || c == 92
    then 92 ∷ c ∷ []
    else if c == 8
    then 92 ∷ 98 ∷ []
    else if c == 12
    then 92 ∷ 102 ∷ []
    else if c == 10
    then 92 ∷ 110 ∷ []
    else if c == 13
    then 92 ∷ 114 ∷ []
    else if c == 9
    then 92 ∷ 116 ∷ []
    else if ltb c 32 || c == 60 || c == 62 || c == 38
    then ascii "\\u00" ++ (hex (c / 16) ∷ hex (c % 16) ∷ [])
    else c ∷ []

second : Bytes → ℕ
second [] = 0
second (d ∷ []) = 0
second (d ∷ e ∷ bs) = e

-- What stands for the rune at the head: its first byte, or an escape.
unfoldable pub escaped : ℕ → Bytes → Bytes
unfolding escaped_ascii ascii line_end second hex
escaped c bs =
    if ltb c 128
    then escaped_ascii c
    else if line_end c bs
    then ascii "\\u202" ++ (hex (second bs % 16) ∷ [])
    else if rune_tail c bs == 0
    then ascii "\\ufffd"
    else c ∷ []

-- How many bytes of the rune follow, and whether they stand for themselves.
unfoldable pub following : ℕ → Bytes → ℕ
following c bs = if ltb c 128 then 0 else rune_tail c bs

unfoldable pub copied : ℕ → Bytes → Bool
unfolding line_end
copied c bs = not (line_end c bs)

-- `skip` bytes of a rune are left, which stand for themselves if `copy`.
escape : Bool → ℕ → Bytes → Bytes
unfolding escaped following copied
escape copy skip [] = []
escape copy zero (c ∷ bs) = escaped c bs ++ escape (copied c bs) (following c bs) bs
escape copy (suc skip) (c ∷ bs) = (if copy then c ∷ [] else []) ++ escape copy skip bs

-- A string.
unfoldable pub quote : Bytes → Bytes
unfolding escape
quote s = 34 ∷ (escape true 0 s ++ (34 ∷ []))

-- `"key":value`, with the comma before it.
unfoldable pub member : String → Bytes → Bytes
unfolding ascii
member key value = ascii ",\"" ++ (ascii key ++ (ascii "\":" ++ value))

-- The rest of a slice after its first element.
elements : List Bytes → Bytes
elements [] = []
elements (v ∷ vs) = 44 ∷ (v ++ elements vs)

-- A slice that is not empty, of values that are printed.
unfoldable pub array : Bytes → List Bytes → Bytes
unfolding elements
array v vs = 91 ∷ (v ++ (elements vs ++ (93 ∷ [])))
