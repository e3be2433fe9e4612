-- ===== src/Ws/Content/Patterns.antt =====
-- lib/ws/content.go: its regular expressions over the bytes of a text. The sets of these
-- expressions hold or exclude ASCII characters only, so a match begins and ends at a rune.
use mezon_go_sdk_turbo.Prelude.{
  ℕ, zero, suc, ◌+◌, ◌-◌, ◌==◌, ltb, Bool, true, false, not, ◌&&◌, ◌||◌, List, [], ◌∷◌, Option,
  none, some, Bytes, drop, if◌then◌else◌, ascii,
}

-- A pattern gives the length of its match at the head of a text.
abbrev pub Pattern : Type 0
Pattern = Bytes → Option ℕ

-- FindAllStringIndex: the leftmost matches that do not overlap, from the position `pos` on, where
-- `skip` bytes of the last one are left.
unfoldable pub find_all : Pattern → ℕ → ℕ → Bytes → List (ℕ × ℕ)
find_all p skip pos [] = []
find_all p (suc skip) pos (c ∷ cs) = find_all p skip (suc pos) cs
find_all p zero pos (c ∷ cs) = elim (p (c ∷ cs)) [
  | none ↦ find_all p zero (suc pos) cs
  | some n ↦ (pos, pos + n) ∷ find_all p (n - 1) (suc pos) cs
]

-- The length of the longest run of bytes of a set.
abbrev pub run : (ℕ → Bool) → Bytes → ℕ
run p [] = 0
run p (c ∷ cs) = let rest = run p cs in if p c then suc rest else 0

abbrev pub starts : Bytes → Bytes → Bool
starts [] cs = true
starts (x ∷ xs) [] = false
starts (x ∷ xs) (c ∷ cs) = x == c && starts xs cs

-- `open body+ close`, where the body holds no byte that `close` begins with.
abbrev pub enclosed : Bytes → (ℕ → Bool) → Bytes → ℕ → Pattern
enclosed left body right ends cs =
    let inner = run body (drop ends cs) in
    if starts left cs && (ltb 0 inner && starts right (drop inner (drop ends cs)))
    then some (ends + inner + ends)
    else none

abbrev pub stars : Bytes
stars = 42 ∷ 42 ∷ []

abbrev pub no_star : ℕ → Bool
no_star c = not (c == 42 || c == 10)

abbrev pub tick : Bytes
tick = 96 ∷ []

abbrev pub no_tick : ℕ → Bool
no_tick c = not (c == 96 || c == 10)

-- `\*\*([^*\n]+?)\*\*`, and "`[^`\n]+`".
unfoldable pub bold : Pattern
bold = enclosed stars no_star stars 2

unfoldable pub inline_code : Pattern
inline_code = enclosed tick no_tick tick 1

-- `[^\s<>\[\]()]`
abbrev pub url_byte : ℕ → Bool
url_byte c = not (
    c == 9
    || c == 10
    || c == 12
    || c == 13
    || c == 32
    || c == 60
    || c == 62
    || c == 91
    || c == 93
    || c == 40
    || c == 41)

abbrev after_scheme : ℕ → Bytes → Option ℕ
after_scheme n cs =
    let rest = run url_byte (drop n cs) in if ltb 0 rest then some (n + rest) else none

-- `https?://[^\s<>\[\]()]+`
unfoldable pub url : Pattern
unfolding ascii
url cs =
    if starts (ascii "https://") cs
    then after_scheme 8 cs
    else if starts (ascii "http://") cs
    then after_scheme 7 cs
    else none

-- `(?m)^[ \t]*` and three backticks, on a line.
unfoldable pub is_fence : Bytes → Bool
is_fence line = starts (96 ∷ 96 ∷ 96 ∷ []) (drop (run (λ c. c == 32 || c == 9) line) line)

abbrev pub is_punct : ℕ → Bool
is_punct c = c == 46 || c == 44 || c == 59 || c == 58 || c == 33 || c == 63

-- `strings.TrimRight(s, urlTrailingPunct)`
abbrev trimmed : ℕ → Bytes → Bytes
trimmed c [] = if is_punct c then [] else c ∷ []
trimmed c (d ∷ ds) = c ∷ d ∷ ds

unfoldable pub trim_punct : Bytes → Bytes
trim_punct [] = []
trim_punct (c ∷ cs) = trimmed c (trim_punct cs)
