-- ===== src/Ws/Content.antt =====
-- lib/ws/content.go: the content blob. A slice out of range panics, which is `none` here.
pub mod Patterns
pub mod Units
pub mod Ranges
pub mod Spans
mod Tests
use mezon_go_sdk_turbo.Prelude.{
  ℕ, zero, suc, ◌+◌, ◌-◌, ◌==◌, ltb, leb, Bool, true, false, not, ◌&&◌, ◌||◌, List, [], ◌∷◌, ◌++◌,
  map, Option, none, some, Bytes, is_empty, drop, length, ascii, format_uint, if◌then◌else◌,
}
use mezon_go_sdk_turbo.Ws.Json.{quote, member, array}
use mezon_go_sdk_turbo.Ws.Content.Patterns.{find_all, bold, inline_code, url, is_fence, trim_punct}
use mezon_go_sdk_turbo.Ws.Content.Units.{take, utf16_len}

pub record LinkSpan : Type 0 where
  pub s : ℕ
  pub e : ℕ

-- The kinds are the letters of "t", "s", "b" and the text "lk".
pub record MarkSpan : Type 0 where
  pub s : ℕ
  pub e : ℕ
  pub kind : Bytes

pub record Event : Type 0 where
  pub s : ℕ
  pub e : ℕ
  pub kind : Bytes
  pub body : Bytes

-- A region, and the indices of a match.
abbrev pub Region : Type 0
Region = ℕ × ℕ

-- `text[s:e]`
unfoldable pub slice : Bytes → ℕ → ℕ → Option Bytes
slice text s e = if leb s e && leb e (length text) then some (take (e - s) (drop s text)) else none

unfoldable pub inside : ℕ → List Region → Bool
inside pos [] = false
inside pos ((s, e) ∷ rs) = (leb s pos && ltb pos e) || inside pos rs

-- `strings.Split(text, "\n")`
abbrev pub on_first : ℕ → List Bytes → List Bytes
on_first c [] = (c ∷ []) ∷ []
on_first c (line ∷ lines) = (c ∷ line) ∷ lines

unfoldable pub split_lines : Bytes → List Bytes
split_lines [] = [] ∷ []
split_lines (c ∷ cs) =
    let lines = split_lines cs in if c == 10 then [] ∷ lines else on_first c lines

-- The loop of fenceRegions on the lines that are left; `open` is `none` for -1.
unfoldable pub fences_from : ℕ → Option ℕ → List Bytes → List Region
fences_from offset open_at [] = []
fences_from offset none (line ∷ lines) =
    fences_from (offset + length line + 1) (if is_fence line then some offset else none) lines
fences_from offset (some start) (line ∷ lines) = elim (is_fence line) [
  | true ↦ (start, offset + length line) ∷ fences_from (offset + length line + 1) none lines
  | false ↦ fences_from (offset + length line + 1) (some start) lines
]

unfoldable pub fence_regions : Bytes → List Region
unfolding fences_from split_lines
fence_regions text = fences_from 0 none (split_lines text)

-- The inline code that does not begin inside a fence.
abbrev pub outside : List Region → List Region → List Region
outside fences [] = []
outside fences ((s, e) ∷ rs) =
    let rest = outside fences rs in if inside s fences then rest else (s, e) ∷ rest

-- The events of the regions of a kind, with the text of each.
unfoldable pub region_events : Bytes → Bytes → List Region → Option (List Event)
unfolding slice
region_events kind text [] = some []
region_events kind text ((s, e) ∷ rs) = elim (slice text s e) [
  | none ↦ none
  | some body ↦ elim (region_events kind text rs) [
    | none ↦ none
    | some evs ↦ some (record { s = s; e = e; kind = kind; body = body } ∷ evs)
  ]
]

-- The events of the bold matches, whose group 1 is the match without two bytes at each end.
unfoldable pub bold_events : Bytes → List Region → List Region → Option (List Event)
unfolding slice inside
bold_events text masked [] = some []
bold_events text masked ((s, e) ∷ rs) = elim (inside s masked || inside (e - 1) masked) [
  | true ↦ bold_events text masked rs
  | false ↦ elim (slice text (s + 2) (e - 2)) [
    | none ↦ none
    | some body ↦ elim (bold_events text masked rs) [
      | none ↦ none
      | some evs ↦ some (record { s = s; e = e; kind = ascii "b"; body = body } ∷ evs)
    ]
  ]
]

-- sort.Slice by the start.
unfoldable pub insert_event : Event → List Event → List Event
insert_event ev [] = ev ∷ []
insert_event ev (x ∷ xs) =
    let rest = insert_event ev xs in if ltb x.s ev.s then x ∷ rest else ev ∷ x ∷ xs

unfoldable pub sort_events : List Event → List Event
unfolding insert_event
sort_events [] = []
sort_events (ev ∷ evs) = insert_event ev (sort_events evs)

-- The events that start before the last kept one ends are dropped. `end` begins at -1, and no
-- event starts before 0 either.
unfoldable pub kept : ℕ → List Event → List Event
kept end [] = []
kept end (ev ∷ evs) = elim (ltb ev.s end) [ true ↦ kept end evs | false ↦ ev ∷ kept ev.e evs ]

-- `b`, `outU16`, `pos` and `spans`.
pub record Builder : Type 0 where
  pub out : Bytes
  pub out_u16 : ℕ
  pub pos : ℕ
  pub spans : List MarkSpan

unfoldable pub emit_chunk : Bytes → Builder → Builder
unfolding utf16_len
emit_chunk chunk b = record b { out = b.out ++ chunk; out_u16 = b.out_u16 + utf16_len chunk }

-- One round of the loop over the events, after the text before the event is sliced.
unfoldable pub emit_event : Event → Bytes → Builder → Builder
unfolding emit_chunk
emit_event ev gap b =
    let b1 = emit_chunk gap b in
    let b2 = emit_chunk ev.body b1 in
    record b2 {
      spans = b2.spans ++ (record { s = b1.out_u16; e = b2.out_u16; kind = ev.kind } ∷ []);
      pos = ev.e;
    }

unfoldable pub emit_all : Bytes → List Event → Builder → Option Builder
unfolding slice emit_event emit_chunk
emit_all text [] b = elim (slice text b.pos (length text)) [
  | none ↦ none
  | some gap ↦ some (emit_chunk gap b)
]
emit_all text (ev ∷ evs) b = elim (slice text b.pos ev.s) [
  | none ↦ none
  | some gap ↦ emit_all text evs (emit_event ev gap b)
]

abbrev pub no_output : Builder
no_output = record { out = []; out_u16 = 0; pos = 0; spans = [] }

abbrev pub built : Builder → Bytes × List MarkSpan
built b = (b.out, b.spans)

-- The clean text and the spans of the events. Without events the text stays as it is.
unfoldable pub render : Bytes → List Event → Option (Bytes × List MarkSpan)
unfolding sort_events kept emit_all
render text [] = some (text, [])
render text (ev ∷ evs) = elim (emit_all text (kept 0 (sort_events (ev ∷ evs))) no_output) [
  | none ↦ none
  | some b ↦ some (built b)
]

abbrev joined : Option (List Event) → Option (List Event) → Option (List Event)
joined none b = none
joined (some xs) none = none
joined (some xs) (some ys) = some (xs ++ ys)

-- The events in the order in which they are appended.
unfoldable pub events : Bytes → Option (List Event)
unfolding fence_regions region_events bold_events find_all
events text =
    let fences = fence_regions text in
    let inline = outside fences (find_all inline_code 0 0 text) in
    joined (region_events (ascii "t") text fences) (
      joined (region_events (ascii "s") text inline)
        (bold_events text (fences ++ inline) (find_all bold 0 0 text)))

unfoldable pub markdown_spans : Bytes → Option (Bytes × List MarkSpan)
unfolding events render
markdown_spans text =
    if is_empty text
    then some (text, [])
    else elim (events text) [ none ↦ none | some evs ↦ render text evs ]

-- The loop of linkSpans.
unfoldable pub links_of : Bytes → List Region → Option (List LinkSpan)
unfolding slice trim_punct utf16_len
links_of text [] = some []
links_of text ((s, e) ∷ rs) = elim (slice text s e) [
  | none ↦ none
  | some found ↦ elim (slice text 0 s) [
    | none ↦ none
    | some before ↦ elim (links_of text rs) [
      | none ↦ none
      | some spans ↦
          let link = trim_punct found in
          if is_empty link
          then some spans
          else some (record { s = utf16_len before; e = utf16_len before + utf16_len link } ∷ spans)
    ]
  ]
]

unfoldable pub link_spans : Bytes → Option (List LinkSpan)
unfolding links_of find_all
link_spans text = links_of text (find_all url 0 0 text)

abbrev pub link_mark : LinkSpan → MarkSpan
link_mark l = record { s = l.s; e = l.e; kind = ascii "lk" }

unfoldable pub span_json : MarkSpan → Bytes
unfolding member quote
span_json m =
    ascii "{\"s\":"
    ++ (format_uint m.s
        ++ (member "e" (format_uint m.e) ++ (member "type" (quote m.kind) ++ ascii "}")))

-- json.Marshal of the map, whose keys it sorts.
unfoldable pub content_json : Bytes → List MarkSpan → Bytes
unfolding quote array span_json member
content_json clean [] = ascii "{\"t\":" ++ (quote clean ++ ascii "}")
content_json clean (m ∷ ms) =
    ascii "{\"mk\":"
    ++ (array (span_json m) (map span_json ms) ++ (member "t" (quote clean) ++ ascii "}"))

unfoldable pub build_content : Bytes → Option Bytes
unfolding markdown_spans link_spans content_json
build_content text = elim (markdown_spans text) [
  | none ↦ none
  | some (clean, marks) ↦ elim (link_spans clean) [
    | none ↦ none
    | some links ↦ some (content_json clean (marks ++ map link_mark links))
  ]
]
