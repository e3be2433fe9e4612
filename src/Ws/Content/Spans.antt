-- ===== src/Ws/Content/Spans.antt =====
-- lib/ws/content.go: the spans of markdownSpans.
use mezon_go_sdk_turbo.Prelude.{
  ℕ, ◌+◌, ◌-◌, ◌≤◌, ◌≡◌, refl, inl, inr, ◌||◌, List, [], ◌∷◌, ◌++◌, Option, some, Bytes, is_empty,
  All, All-append, drop, length, arith, Bool-cases, ltb, ascii,
}
use mezon_go_sdk_turbo.Ws.Content.Patterns.{find_all, bold, inline_code}
use mezon_go_sdk_turbo.Ws.Content.Units.{take}
use mezon_go_sdk_turbo.Ws.Content.Ranges.{
  IsIn, bold_matches, code_matches, slice-some, length-take, fence_regions-IsIn, outside-IsIn,
  utf16_len-le,
}
use mezon_go_sdk_turbo.Ws.Content.{
  Region, MarkSpan, Event, Builder, inside, fence_regions, outside, region_events, bold_events,
  insert_event, sort_events, kept, emit_chunk, emit_event, emit_all, no_output, render, events,
  markdown_spans,
}

-- An event lies inside a text of `n` bytes, and its body is not longer than it.
abbrev pub EventIsIn : ℕ → Event → Type 0
EventIsIn n ev = (ev.s ≤ ev.e) × (ev.e ≤ n) × (length ev.body + ev.s ≤ ev.e)

abbrev AreEvents : ℕ → Option (List Event) → Type 0
AreEvents n evs = (found : List Event) × ((evs ≡ some found) × All (EventIsIn n) found)

region_events-some :
    (kind text : Bytes) (rs : List Region) (low : ℕ)
    → All (IsIn low (length text)) rs
    → AreEvents (length text) (region_events kind text rs)
unfolding region_events
region_events-some kind text [] low h = ([], (refl, tt))
region_events-some kind text ((s, e) ∷ rs) low h =
    let (more, (found, all)) = region_events-some kind text rs low h.1 in
    let body = take (e - s) (drop s text) in
    let ev : Event = record { s = s; e = e; kind = kind; body = body } in
    (
      ev ∷ more,
      (
        rw (slice-some text s e (omega (arith, h.0.0)) h.0.1, region_events, found) refl,
        (
          (omega (arith, h.0.0), h.0.1, omega (arith, h.0.0, length-take (e - s) (drop s text))),
          all,
        ),
      ),
    )

bold_events-some :
    (text : Bytes) (masked rs : List Region)
    → All (IsIn 5 (length text)) rs
    → AreEvents (length text) (bold_events text masked rs)
unfolding bold_events
bold_events-some text masked [] h = ([], (refl, tt))
bold_events-some text masked ((s, e) ∷ rs) h =
    let (more, (found, all)) = bold_events-some text masked rs h.1 in
    elim (Bool-cases (inside s masked || inside (e - 1) masked)) [
      | inl hidden ↦ (more, (rw (hidden, bold_events) found, all))
      | inr free ↦
          let body = take (e - 2 - (s + 2)) (drop (s + 2) text) in
          let ev : Event = record { s = s; e = e; kind = ascii "b"; body = body } in
          (
            ev ∷ more,
            (
              rw
                  (
                    free,
                    bold_events,
                    slice-some text (s + 2) (e - 2) (omega (arith, h.0.0)) (omega (arith, h.0.1)),
                    found,
                  )
                  refl,
              (
                (
                  omega (arith, h.0.0),
                  h.0.1,
                  omega (arith, h.0.0, length-take (e - 2 - (s + 2)) (drop (s + 2) text)),
                ),
                all,
              ),
            ),
          )
    ]

pub events-some : (text : Bytes) → AreEvents (length text) (events text)
unfolding events
events-some text =
    let fences = fence_regions text in
    let inline = outside fences (find_all inline_code 0 0 text) in
    let (ts, (t_found, t_all)) =
      region_events-some (ascii "t") text fences 0 (fence_regions-IsIn text) in
    let (ss, (s_found, s_all)) =
      region_events-some (ascii "s") text inline 3
        (outside-IsIn 3 (length text) fences _ (code_matches text)) in
    let (bs, (b_found, b_all)) =
      bold_events-some text (fences ++ inline) (find_all bold 0 0 text) (bold_matches text) in
    (
      ts ++ (ss ++ bs),
      (
        rw (t_found, s_found, b_found) refl,
        All-append (EventIsIn (length text)) ts (ss ++ bs) t_all
            (All-append (EventIsIn (length text)) ss bs s_all b_all),
      ),
    )

insert_event-All :
    (P : Event → Type 0) (ev : Event) (evs : List Event)
    → P ev
    → All P evs
    → All P (insert_event ev evs)
unfolding insert_event
insert_event-All P ev [] p h = (p, tt)
insert_event-All P ev (x ∷ xs) p h = elim (Bool-cases (ltb x.s ev.s)) [
  | inl before ↦ rw before (h.0, insert_event-All P ev xs p h.1)
  | inr here ↦ rw here (p, (h.0, h.1))
]

sort_events-All : (P : Event → Type 0) (evs : List Event) → All P evs → All P (sort_events evs)
unfolding sort_events
sort_events-All P [] h = tt
sort_events-All P (ev ∷ evs) h =
    insert_event-All P ev (sort_events evs) h.0 (sort_events-All P evs h.1)

-- Events one after the other, from `pos` on.
abbrev pub IsChain : ℕ → ℕ → List Event → Type 0
IsChain n pos [] = Unit {0}
IsChain n pos (ev ∷ evs) = (pos ≤ ev.s) × EventIsIn n ev × IsChain n ev.e evs

kept-IsChain : (n end : ℕ) (evs : List Event) → All (EventIsIn n) evs → IsChain n end (kept end evs)
unfolding kept
kept-IsChain n end [] h = tt
kept-IsChain n end (ev ∷ evs) h = elim (Bool-cases (ltb ev.s end)) [
  | inl nested ↦ rw (nested, kept) (kept-IsChain n end evs h.1)
  | inr after ↦ rw (after, kept) (ground (arith, after), h.0, kept-IsChain n ev.e evs h.1)
]

-- Spans one after the other between `lo` and `hi`.
abbrev pub IsOrdered : ℕ → ℕ → List MarkSpan → Type 0
IsOrdered lo hi [] = lo ≤ hi
IsOrdered lo hi (m ∷ ms) = (lo ≤ m.s) × (m.s ≤ m.e) × IsOrdered m.e hi ms

IsOrdered-snoc :
    (lo mid hi : ℕ) (ms : List MarkSpan) (m : MarkSpan)
    → IsOrdered lo mid ms
    → mid ≤ m.s
    → m.s ≤ m.e
    → m.e ≤ hi
    → IsOrdered lo hi (ms ++ (m ∷ []))
IsOrdered-snoc lo mid hi [] m h a b c = (omega arith, b, c)
IsOrdered-snoc lo mid hi (x ∷ xs) m h a b c = (h.0, h.1, IsOrdered-snoc x.e mid hi xs m h.2 a b c)

IsOrdered-up :
    (lo mid hi : ℕ) (ms : List MarkSpan) → IsOrdered lo mid ms → mid ≤ hi → IsOrdered lo hi ms
IsOrdered-up lo mid hi [] h k = omega arith
IsOrdered-up lo mid hi (x ∷ xs) h k = (h.0, h.1, IsOrdered-up x.e mid hi xs h.2 k)

-- What the loop over the events keeps.
record IsBuilt (n : ℕ) (b : Builder) : Type 0 where
  ordered : IsOrdered 0 b.out_u16 b.spans
  units : b.out_u16 ≤ b.pos
  within : b.pos ≤ n

emit_event-IsBuilt :
    (n : ℕ) (ev : Event) (gap : Bytes) (b : Builder)
    → IsBuilt n b
    → b.pos ≤ ev.s
    → EventIsIn n ev
    → length gap ≤ ev.s - b.pos
    → IsBuilt n (emit_event ev gap b)
unfolding emit_event emit_chunk
emit_event-IsBuilt n ev gap b h p i l = record {
  ordered =
      IsOrdered-snoc 0 b.out_u16 _ b.spans _ h.ordered (omega arith) (omega arith) (omega arith);
  units = omega (arith, h.units, i, p, l, utf16_len-le gap, utf16_len-le ev.body);
  within = i.1;
}

emit_all-some :
    (text : Bytes) (evs : List Event) (b : Builder)
    → IsBuilt (length text) b
    → IsChain (length text) b.pos evs
    → (done : Builder) × ((emit_all text evs b ≡ some done) × IsOrdered 0 (length text) done.spans)
unfolding emit_all
emit_all-some text [] b h c = (
  emit_chunk (take (length text - b.pos) (drop b.pos text)) b,
  (
    rw (slice-some text b.pos (length text) h.within (omega arith), emit_all) refl,
    unfold emit_chunk in
        IsOrdered-up 0 b.out_u16 (length text) b.spans h.ordered (omega (arith, h.units, h.within)),
  ),
)
emit_all-some text (ev ∷ evs) b h c =
    let gap = take (ev.s - b.pos) (drop b.pos text) in
    let (done, (e, o)) =
      emit_all-some text evs (emit_event ev gap b)
        (emit_event-IsBuilt (length text) ev gap b h c.0 c.1
          (length-take (ev.s - b.pos) (drop b.pos text)))
        (unfold emit_event in c.2) in
    (done, (rw (slice-some text b.pos ev.s c.0 (omega (arith, c.1)), emit_all) e, o))

-- A result with spans one after the other, as far as the text has bytes.
abbrev pub HasSpans : Bytes → Option (Bytes × List MarkSpan) → Type 0
HasSpans text r =
    (clean : Bytes) × ((spans : List MarkSpan) × ((r ≡ some (clean, spans))
        × IsOrdered 0 (length text) spans))

render-HasSpans :
    (text : Bytes) (evs : List Event)
    → All (EventIsIn (length text)) evs
    → HasSpans text (render text evs)
unfolding render
render-HasSpans text [] h = (text, ([], (refl, omega arith)))
render-HasSpans text (ev ∷ evs) h =
    let sorted = sort_events-All (EventIsIn (length text)) (ev ∷ evs) h in
    let (b, (e, o)) =
      emit_all-some text (kept 0 (sort_events (ev ∷ evs))) no_output
        (record { ordered = omega arith; units = omega arith; within = omega arith })
        (kept-IsChain (length text) 0 (sort_events (ev ∷ evs)) sorted) in
    (b.out, (b.spans, (rw (e, render) refl, o)))

-- On every text markdownSpans returns and does not panic, and its spans begin where they end or
-- before, lie one after the other, and end at most at the number of bytes of the text.
pub markdown_spans-HasSpans : (text : Bytes) → HasSpans text (markdown_spans text)
unfolding markdown_spans
markdown_spans-HasSpans text = elim (Bool-cases (is_empty text)) [
  | inl nothing ↦ rw nothing (text, ([], (refl, omega arith)))
  | inr something ↦
      let (evs, (found, all)) = events-some text in
      rw (something, found) (render-HasSpans text evs all)
]
