-- ===== src/Ws/Content/Ranges.antt =====
-- lib/ws/content.go: where the regions and the matches lie in the text.
use mezon_go_sdk_turbo.Prelude.{
  ℕ, zero, suc, ◌+◌, ◌-◌, ◌≤◌, ◌==◌, ◌≡◌, refl, inl, inr, Bool, true, List, [], ◌∷◌, Option, none,
  some, Bytes, ascii, All, drop, length, length-drop, arith, Bool-cases, Option-cases, ltb,
}
use mezon_go_sdk_turbo.Ws.Content.Patterns.{
  url_byte, is_fence, stars, no_star, tick, no_tick, Pattern, find_all, run, starts, enclosed, bold,
  inline_code, url,
}
use mezon_go_sdk_turbo.Ws.Content.Units.{take, units_from, utf16_len, rune_units}
use mezon_go_sdk_turbo.Ws.Json.{following}
use mezon_go_sdk_turbo.Ws.Rounds.{and_false}
use mezon_go_sdk_turbo.Ws.Content.{
  Region, slice, split_lines, on_first, fences_from, fence_regions, outside, inside,
}

-- A region of at least `low` bytes that ends at `n` at most.
abbrev pub IsIn : ℕ → ℕ → Region → Type 0
IsIn low n (s, e) = (s + low ≤ e) × (e ≤ n)

-- A pattern matches at least `low` bytes, of those that are there.
abbrev Matches : ℕ → Pattern → Type 0
Matches low p = (cs : Bytes) (n : ℕ) → p cs ≡ some n → (low ≤ n) × (n ≤ length cs)

find_all-IsIn :
    (low : ℕ) (p : Pattern)
    → 1 ≤ low
    → Matches low p
    → (top skip pos : ℕ) (cs : Bytes) → pos + length cs ≤ top
    → All (IsIn low top) (find_all p skip pos cs)
unfolding find_all
find_all-IsIn low p l h top skip pos [] t = tt
find_all-IsIn low p l h top (suc skip) pos (c ∷ cs) t =
    find_all-IsIn low p l h top skip (suc pos) cs (omega arith)
find_all-IsIn low p l h top zero pos (c ∷ cs) t = elim (Option-cases (p (c ∷ cs))) [
  | inl none_here ↦
      rw (none_here, find_all) (find_all-IsIn low p l h top zero (suc pos) cs (omega arith))
  | inr (n, here) ↦
      let (at_least, at_most) = h (c ∷ cs) n here in
      rw (here, find_all)
        ((omega arith, omega arith), find_all-IsIn low p l h top (n - 1) (suc pos) cs (omega arith))
]

run-le : (p : ℕ → Bool) (cs : Bytes) → run p cs ≤ length cs
run-le p [] = omega arith
run-le p (c ∷ cs) = ground (arith, run-le p cs)

starts-le : (xs cs : Bytes) → starts xs cs ≡ true → length xs ≤ length cs
starts-le [] cs h = omega arith
starts-le (x ∷ xs) [] h = ground arith
starts-le (x ∷ xs) (c ∷ cs) h = ground (arith, starts-le xs cs)

enclosed-Matches :
    (left right : Bytes) (p : ℕ → Bool) (ends : ℕ)
    → length left ≡ ends
    → length right ≡ ends
    → 1 ≤ ends
    → Matches (ends + 1 + ends) (enclosed left p right ends)
enclosed-Matches left right p ends el er e cs n h =
    let rest = drop ends cs in
    let inner = run p rest in
    ground (
      arith,
      starts-le right (drop inner rest),
      length-drop inner rest,
      length-drop ends cs,
      run-le p rest,
      h,
    )

url-Matches : Matches 8 url
unfolding url ascii
url-Matches cs n h = ground (
  arith,
  run-le url_byte (drop 8 cs),
  run-le url_byte (drop 7 cs),
  length-drop 8 cs,
  length-drop 7 cs,
  h,
)

pub bold_matches : (text : Bytes) → All (IsIn 5 (length text)) (find_all bold 0 0 text)
unfolding bold
bold_matches text =
    find_all-IsIn 5 bold (omega arith)
      (enclosed-Matches stars stars no_star 2 refl refl (omega arith)) _ 0 0 text (omega arith)

pub code_matches : (text : Bytes) → All (IsIn 3 (length text)) (find_all inline_code 0 0 text)
unfolding inline_code
code_matches text =
    find_all-IsIn 3 inline_code (omega arith)
      (enclosed-Matches tick tick no_tick 1 refl refl (omega arith)) _ 0 0 text (omega arith)

pub url_matches : (text : Bytes) → All (IsIn 8 (length text)) (find_all url 0 0 text)
url_matches text = find_all-IsIn 8 url (omega arith) url-Matches _ 0 0 text (omega arith)

pub slice-some :
    (text : Bytes) (s e : ℕ)
    → s ≤ e
    → e ≤ length text
    → slice text s e ≡ some (take (e - s) (drop s text))
unfolding slice
slice-some text s e h k = ground arith

pub length-take {ℓ} : {A : Type ℓ} (n : ℕ) (xs : List A) → length (take n xs) ≤ n
length-take zero xs = omega arith
length-take (suc n) [] = omega arith
length-take (suc n) (x ∷ xs) = omega (arith, length-take n xs)

-- The bytes of lines with a newline after each.
spread : List Bytes → ℕ
spread [] = 0
spread (line ∷ lines) = length line + 1 + spread lines

spread-on_first :
    (c : ℕ) (lines : List Bytes) → 1 ≤ spread lines → spread (on_first c lines) ≡ suc (spread lines)
unfolding spread
spread-on_first c [] h = absurd (omega arith)
spread-on_first c (line ∷ lines) h = omega arith

spread-split_lines : (text : Bytes) → spread (split_lines text) ≡ length text + 1
unfolding split_lines spread
spread-split_lines [] = omega arith
spread-split_lines (c ∷ cs) = elim (Bool-cases (c == 10)) [
  | inl end ↦ rw end (omega (arith, spread-split_lines cs))
  | inr in_line ↦
      rw in_line (omega (arith, spread-on_first c (split_lines cs), spread-split_lines cs))
]

-- An open fence began at `offset` at most.
abbrev Opened : Option ℕ → ℕ → Type 0
Opened none offset = Unit {0}
Opened (some start) offset = start ≤ offset

fences_from-IsIn :
    (n offset : ℕ) (open_at : Option ℕ) (lines : List Bytes)
    → offset + spread lines ≤ n + 1
    → Opened open_at offset
    → All (IsIn 0 n) (fences_from offset open_at lines)
unfolding fences_from spread
fences_from-IsIn n offset open_at [] h o = tt
fences_from-IsIn n offset none (line ∷ lines) h o = elim (Bool-cases (is_fence line)) [
  | inl fence ↦ rw fence (
      fences_from-IsIn n (offset + length line + 1) (some offset) lines (omega arith) (omega arith))
  | inr other ↦ rw other (fences_from-IsIn n (offset + length line + 1) none lines (omega arith) tt)
]
fences_from-IsIn n offset (some start) (line ∷ lines) h o = elim (Bool-cases (is_fence line)) [
  | inl fence ↦
      rw (fence, fences_from)
        (
          (omega arith, omega arith),
          fences_from-IsIn n (offset + length line + 1) none lines (omega arith) tt,
        )
  | inr other ↦
      rw (other, fences_from)
        (fences_from-IsIn n (offset + length line + 1) (some start) lines (omega arith)
          (omega arith))
]

pub fence_regions-IsIn : (text : Bytes) → All (IsIn 0 (length text)) (fence_regions text)
unfolding fence_regions
fence_regions-IsIn text =
    fences_from-IsIn (length text) 0 none (split_lines text)
      (omega (arith, spread-split_lines text)) tt

pub outside-IsIn :
    (low n : ℕ) (fences rs : List Region)
    → All (IsIn low n) rs
    → All (IsIn low n) (outside fences rs)
outside-IsIn low n fences [] h = tt
outside-IsIn low n fences ((s, e) ∷ rs) h = elim (Bool-cases (inside s fences)) [
  | inl within ↦ rw within (outside-IsIn low n fences rs h.1)
  | inr free ↦ rw free (h.0, outside-IsIn low n fences rs h.1)
]

following-nil : (c : ℕ) → following c [] ≡ 0
unfolding following
following-nil c = elim (Bool-cases (ltb c 128)) [
  | inl short ↦ rw short
  | inr long ↦ rw long (simp and_false)
]

is_three : (n : ℕ) → (n == 3) ≡ true → n ≡ 3
is_three n h = ground arith

-- A text has as many UTF-16 units as bytes at most.
units_from-le : (skip : ℕ) (cs : Bytes) → units_from skip cs ≤ length cs
unfolding units_from
units_from-le skip [] = omega arith
units_from-le (suc skip) (c ∷ cs) = omega (arith, units_from-le skip cs)
units_from-le zero (c ∷ []) = rw (rune_units, following-nil c) (omega arith)
units_from-le zero (c ∷ d ∷ cs) = elim (Bool-cases (following c (d ∷ cs) == 3)) [
  | inl four ↦
      rw (is_three (following c (d ∷ cs)) four, rune_units, units_from)
        (omega (arith, units_from-le 2 cs))
  | inr fewer ↦
      rw (rune_units, fewer) (omega (arith, units_from-le (following c (d ∷ cs)) (d ∷ cs)))
]

pub utf16_len-le : (cs : Bytes) → utf16_len cs ≤ length cs
unfolding utf16_len
utf16_len-le cs = omega (arith, units_from-le 0 cs)
