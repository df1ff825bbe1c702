-- ===== src/Sse/Rendering.antt =====
-- crates/himadri-provider/src/sse.rs: events as a provider writes them, which the decoder reads back.
use himadri.Common.{
  ℕ, ◌≡◌, refl, ap, sym, ◌∙◌, List, [], ◌∷◌, ◌++◌, Option, none, some, false, ◌==◌, All,
}
use mathlib.Core.Path.{subst}
use mathlib.Core.List.{append_assoc}
use himadri.Rbac.Pattern.{eq_codes, strip_prefix}
use himadri.Sse.{
  SseEvent, newline, lines_of, yielding, consume, read_line, trim, trim_start, trim_end,
  event_prefix, data_prefix, done_text, new_decoder, Chunk, sse_events, is_whitespace, data_or_done,
  event_line,
}
use himadri.Sse.Lines.{Fits}
use himadri.Sse.Chunks.{yielded, sent, CutBetween, sse_events-consume}

abbrev space : ℕ
space = b' '

-- The line of a field, and the lines of an event: its type if it has one, its payload, a blank line.
abbrev pub field : List ℕ → List ℕ → List ℕ
field prefix value = prefix ++ (space ∷ value)

abbrev pub type_lines : Option (List ℕ) → List (List ℕ)
type_lines none = []
type_lines (some e) = field event_prefix e ∷ []

abbrev pub event_lines : SseEvent → List (List ℕ)
event_lines e = type_lines e.event ++ (field data_prefix e.payload ∷ [] ∷ [])

abbrev pub stream_lines : List SseEvent → List (List ℕ)
stream_lines [] = []
stream_lines (e ∷ es) = event_lines e ++ stream_lines es

abbrev pub join_lines : List (List ℕ) → List ℕ
join_lines [] = []
join_lines (l ∷ ls) = l ++ (newline ∷ join_lines ls)

-- The events in turn, as a provider writes them.
unfoldable pub render : List SseEvent → List ℕ
render es = join_lines (stream_lines es)

-- A value that stands on one line, with no whitespace around it.
unfoldable pub OneLine : List ℕ → Type 0
OneLine value =
    All (λ c. (c == newline) ≡ false) value × (trim_start value ≡ value) × (trim_end value ≡ value)

unfoldable pub OneLineType : Option (List ℕ) → Type 0
OneLineType none = Unit
OneLineType (some e) = OneLine e

-- An event that a line each can carry, and that does not read as the end of the stream.
unfoldable pub Sendable : SseEvent → Type 0
Sendable e = OneLineType e.event × OneLine e.payload × (eq_codes e.payload done_text ≡ false)

abbrev NoNewline : List ℕ → Type 0
NoNewline l = All (λ c. (c == newline) ≡ false) l

lines_of-line :
    (l rest : List ℕ)
    → NoNewline l
    → lines_of (l ++ (newline ∷ rest)) ≡ (l ∷ (lines_of rest).0, (lines_of rest).1)
unfolding lines_of
lines_of-line [] rest h = refl
lines_of-line (c ∷ l) rest h = rw (h.0, lines_of-line l rest h.1) refl

lines_of-join : (ls : List (List ℕ)) → All NoNewline ls → lines_of (join_lines ls) ≡ (ls, [])
unfolding lines_of
lines_of-join [] h = refl
lines_of-join (l ∷ ls) h = rw (lines_of-line l (join_lines ls) h.0, lines_of-join ls h.1) refl

read_line-data :
    (p : List ℕ)
    → trim_start p ≡ p
    → trim_end p ≡ p
    → read_line (trim (data_prefix ++ (space ∷ p))) ≡ data_or_done p
unfolding read_line trim trim_start trim_end is_whitespace strip_prefix
read_line-data [] starts ends = refl
read_line-data (c ∷ p) starts ends = rw (ends, starts) refl

read_line-event :
    (p : List ℕ)
    → trim_start p ≡ p
    → trim_end p ≡ p
    → read_line (trim (event_prefix ++ (space ∷ p))) ≡ event_line p
unfolding read_line trim trim_start trim_end is_whitespace strip_prefix
read_line-event [] starts ends = refl
read_line-event (c ∷ p) starts ends = rw (ends, starts) refl

consume-data :
    (p : List ℕ) (event : Option (List ℕ)) (ls : List (List ℕ))
    → OneLine p
    → eq_codes p done_text ≡ false
    → consume (field data_prefix p ∷ [] ∷ ls) event
      ≡ yielding (record { event = event; payload = p }) (consume ls none)
unfolding consume OneLine read_line trim trim_start trim_end
consume-data p event ls h other = rw (read_line-data p h.1 h.2, other) refl

consume-event :
    (type : Option (List ℕ)) (p : List ℕ) (ls : List (List ℕ))
    → Sendable (record { event = type; payload = p })
    → consume (type_lines type ++ (field data_prefix p ∷ [] ∷ ls)) none
      ≡ yielding (record { event = type; payload = p }) (consume ls none)
unfolding Sendable OneLine OneLineType consume
consume-event none p ls h = consume-data p none ls h.1 h.2
consume-event (some e) p ls h =
    rw (read_line-event e h.0.1 h.0.2) (consume-data p (some e) ls h.1 h.2)

consume-stream :
    (es : List SseEvent) → All Sendable es → (consume (stream_lines es) none).events ≡ es
unfolding consume
consume-stream [] h = refl
consume-stream (e ∷ es) h =
    ap (λ ls. (consume ls none).events) (append_assoc (type_lines e.event) _ (stream_lines es))
    ∙ ap (λ c. c.events) (consume-event e.event e.payload (stream_lines es) h.0)
    ∙ ap (λ l. e ∷ l) (consume-stream es h.1)

data_line-NoNewline : (p : List ℕ) → OneLine p → NoNewline (field data_prefix p)
unfolding OneLine
data_line-NoNewline p h = (refl, (refl, (refl, (refl, (refl, (refl, h.0))))))

event_line-NoNewline : (e : List ℕ) → OneLine e → NoNewline (field event_prefix e)
unfolding OneLine
event_line-NoNewline e h = (refl, (refl, (refl, (refl, (refl, (refl, (refl, h.0)))))))

event_lines-NoNewline :
    (type : Option (List ℕ)) (p : List ℕ) (ls : List (List ℕ))
    → Sendable (record { event = type; payload = p })
    → All NoNewline ls
    → All NoNewline (type_lines type ++ (field data_prefix p ∷ [] ∷ ls))
unfolding Sendable OneLineType
event_lines-NoNewline none p ls h rest = (data_line-NoNewline p h.1, (tt, rest))
event_lines-NoNewline (some e) p ls h rest =
    (event_line-NoNewline e h.0, (data_line-NoNewline p h.1, (tt, rest)))

stream_lines-NoNewline : (es : List SseEvent) → All Sendable es → All NoNewline (stream_lines es)
stream_lines-NoNewline [] h = tt
stream_lines-NoNewline (e ∷ es) h =
    rw (append_assoc (type_lines e.event) (field data_prefix e.payload ∷ [] ∷ []) (stream_lines es))
      (event_lines-NoNewline e.event e.payload (stream_lines es) h.0
        (stream_lines-NoNewline es h.1))

module _ (lossy : List ℕ → List ℕ) where
  -- Events whose fields stand on one line each with no whitespace around them, and none of which is the end
  -- mark, whose bytes arrive cut into chunks between characters and with transport errors between them, are
  -- read back as exactly those events, as long as each line can be buffered and no bytes decode to no text.
  pub sse_events-render :
      (es : List SseEvent) (cs : List (Chunk (List ℕ)))
      → All Sendable es
      → lossy [] ≡ []
      → CutBetween lossy cs
      → lossy (sent cs) ≡ render es
      → Fits (render es)
      → yielded (sse_events lossy new_decoder cs) ≡ es
  unfolding render
  sse_events-render es cs sendable empty cut same fits =
      sse_events-consume lossy cs empty cut (subst Fits (sym same) fits)
      ∙ ap (λ t. (consume (lines_of t).0 none).events) same
      ∙ ap (λ l. (consume l.0 none).events)
          (lines_of-join (stream_lines es) (stream_lines-NoNewline es sendable))
      ∙ consume-stream es sendable
