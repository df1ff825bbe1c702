-- ===== src/Sse/Chunks.antt =====
-- crates/himadri-provider/src/sse.rs: how a stream is cut into chunks, and the size of the buffer.
use himadri.Common.{
  ℕ, ◌≤◌, ◌≡◌, refl, ap, sym, ◌∙◌, List, [], ◌∷◌, ◌++◌, map, Option, none, some, Bool, true, false,
  arith, inl, inr, if◌then◌else◌, ltb, ◌⊎◌,
}
use mathlib.Core.Path.{subst}
use mathlib.Core.List.{append_assoc, append-nil}
use himadri.Sse.{
  SseEvent, Consumed, consume, lines_of, byte_len, max_line_bytes, Decoder, new_decoder, Chunk,
  bytes, broken, Item, event, error, conclude, proceed, step, sse_events,
}
use himadri.Sse.Lines.{lines_of-append, lines_of-tail, Fits, Fits-rest, Fits-tail, consume-append}

-- The events among the items.
abbrev pub yielded : List Item → List SseEvent
yielded [] = []
yielded (event e ∷ items) = e ∷ yielded items
yielded (error e ∷ items) = yielded items

yielded-append : (xs ys : List Item) → yielded (xs ++ ys) ≡ yielded xs ++ yielded ys
yielded-append [] ys = refl
yielded-append (event e ∷ xs) ys = ap (λ l. e ∷ l) (yielded-append xs ys)
yielded-append (error e ∷ xs) ys = yielded-append xs ys

yielded-map : (es : List SseEvent) → yielded (map event es) ≡ es
yielded-map [] = refl
yielded-map (e ∷ es) = ap (λ l. e ∷ l) (yielded-map es)

not_longer : (n : ℕ) → n ≤ max_line_bytes → ltb max_line_bytes n ≡ false
not_longer n h = ground arith

module _ {B : Type 0} (lossy : B → List ℕ) where
  -- What the chunks that arrive say together.
  unfoldable pub received : List (Chunk B) → List ℕ
  received [] = []
  received (bytes b ∷ cs) = lossy b ++ received cs
  received (broken e ∷ cs) = received cs

  -- What a chunk and those after it yield, given what those after it yield.
  yielded-resume :
      (ended long : Bool) (cs : List (Chunk B)) (tail : List ℕ) (c : Consumed)
      → (later : Option (List ℕ) → Consumed) → long ≡ false
      → yielded (sse_events lossy (record { buffer = tail; current_event = c.current_event }) cs)
        ≡ (later c.current_event).events
      → yielded (proceed (conclude ended long tail c) (λ next. sse_events lossy next cs))
        ≡ (if ended then c else record (later c.current_event) {
          events = c.events ++ (later c.current_event).events;
        }).events
  yielded-resume true long cs tail c later short h = yielded-map c.events
  yielded-resume false true cs tail c later short h = cc
  yielded-resume false false cs tail c later short h =
      rw (yielded-append (map event c.events) _, yielded-map c.events, h) refl

  yielded-events :
      (cs : List (Chunk B)) (d : Decoder)
      → lines_of d.buffer ≡ ([], d.buffer)
      → Fits (d.buffer ++ received cs)
      → yielded (sse_events lossy d cs)
        ≡ (consume (lines_of (d.buffer ++ received cs)).0 d.current_event).events
  unfolding sse_events received step consume
  yielded-events [] d idle fits = rw (append-nil d.buffer, idle) refl
  yielded-events (bytes b ∷ cs) d idle fits =
      let text = d.buffer ++ lossy b in
      let whole = sym (append_assoc d.buffer (lossy b) (received cs)) in
      let fits_all = subst Fits whole fits in
      let tail = (lines_of text).1 in
      let c = consume (lines_of text).0 d.current_event in
      let rest = lines_of (tail ++ received cs) in
      yielded-resume c.ended (ltb max_line_bytes (byte_len tail)) cs tail c (consume rest.0)
        (not_longer (byte_len tail) (Fits-tail text (received cs) fits_all))
        (yielded-events cs (record { buffer = tail; current_event = c.current_event })
          (lines_of-tail text) (Fits-rest text (received cs) fits_all))
      ∙ sym (
          ap (λ t. (consume (lines_of t).0 d.current_event).events) whole
          ∙ ap (λ p. (consume p.0 d.current_event).events) (lines_of-append text (received cs))
          ∙ ap (λ k. k.events) (consume-append (lines_of text).0 rest.0 d.current_event))
  yielded-events (broken e ∷ cs) d idle fits = yielded-events cs d idle fits

  -- Whatever transport errors come between the chunks, the events are those of the lines of what the
  -- chunks say together, each decoded by itself, as long as each of its lines can be buffered.
  pub sse_events-received :
      (cs : List (Chunk B))
      → Fits (received cs)
      → yielded (sse_events lossy new_decoder cs) ≡ (consume (lines_of (received cs)).0 none).events
  unfolding lines_of
  sse_events-received cs fits = yielded-events cs new_decoder refl fits

  conclude-Capped :
      (ended long : Bool) (tail : List ℕ) (c : Consumed)
      → long ≡ ltb max_line_bytes (byte_len tail)
      → ((conclude ended long tail c).1 ≡ none)
        ⊎ ((next : Decoder) × ((conclude ended long tail c).1 ≡ some next)
            × (byte_len next.buffer ≤ max_line_bytes))
  conclude-Capped true long tail c h = inl refl
  conclude-Capped false true tail c h = inl refl
  conclude-Capped false false tail c h = inr (_, refl, ground arith)

  -- From a decoder whose buffer is within the cap, every chunk ends the stream or leads to a decoder
  -- whose buffer is within it.
  pub step-Capped :
      (d : Decoder) (c : Chunk B)
      → byte_len d.buffer ≤ max_line_bytes
      → ((step lossy d c).1 ≡ none)
        ⊎ ((next : Decoder) × ((step lossy d c).1 ≡ some next)
            × (byte_len next.buffer ≤ max_line_bytes))
  unfolding step
  step-Capped d (bytes b) h = conclude-Capped _ _ _ _ refl
  step-Capped d (broken e) h = inr (d, refl, h)

-- The bytes of the chunks that arrive, one after another.
unfoldable pub sent : List (Chunk (List ℕ)) → List ℕ
sent [] = []
sent (bytes b ∷ cs) = b ++ sent cs
sent (broken e ∷ cs) = sent cs

module _ (lossy : List ℕ → List ℕ) where
  -- The bytes do not end within a character: they are decoded the same whatever follows.
  unfoldable pub IsWhole : List ℕ → Type 0
  IsWhole b = (rest : List ℕ) → lossy (b ++ rest) ≡ lossy b ++ lossy rest

  -- Every chunk ends between two characters.
  abbrev pub CutBetween : List (Chunk (List ℕ)) → Type 0
  CutBetween [] = Unit
  CutBetween (bytes b ∷ cs) = IsWhole b × CutBetween cs
  CutBetween (broken e ∷ cs) = CutBetween cs

  pub received-sent :
      (cs : List (Chunk (List ℕ)))
      → lossy [] ≡ []
      → CutBetween cs
      → received lossy cs ≡ lossy (sent cs)
  unfolding received sent IsWhole
  received-sent [] empty cut = sym empty
  received-sent (bytes b ∷ cs) empty (whole, cut) =
      ap (λ t. lossy b ++ t) (received-sent cs empty cut) ∙ sym (whole (sent cs))
  received-sent (broken e ∷ cs) empty cut = received-sent cs empty cut

  -- However the bytes of a text are cut into chunks between its characters, and whatever transport errors
  -- come between them, the events are those of the lines of the text, as long as each of its lines can be
  -- buffered and no bytes decode to no text.
  pub sse_events-consume :
      (cs : List (Chunk (List ℕ)))
      → lossy [] ≡ []
      → CutBetween cs
      → Fits (lossy (sent cs))
      → yielded (sse_events lossy new_decoder cs)
        ≡ (consume (lines_of (lossy (sent cs))).0 none).events
  sse_events-consume cs empty cut fits =
      let same = received-sent cs empty cut in
      sse_events-received lossy cs (subst Fits (sym same) fits)
      ∙ ap (λ t. (consume (lines_of t).0 none).events) same
