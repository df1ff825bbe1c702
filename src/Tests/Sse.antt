-- ===== src/Tests/Sse.antt =====
-- crates/himadri-provider/src/sse.rs on a short stream, whose chunks are texts already.
use himadri.Common.{ℕ, ◌≡◌, ◌⊎◌, ◌≤◌, refl, [], ◌∷◌, List, none, some, arith, All}
use himadri.Rbac.Pattern.{codes, eq_codes, strip_prefix}
use himadri.Sse.{
  SseEvent, Chunk, bytes, broken, new_decoder, sse_events, step, Decoder, consume, lines_of,
  byte_len, len_utf8, max_line_bytes, trim_start, trim_end, is_whitespace, read_line, trim, event,
}
use himadri.Sse.Lines.{Fits}
use himadri.Sse.Chunks.{sent, IsWhole, CutBetween, yielded, sse_events-consume, step-Capped}
use himadri.Sse.Rendering.{render, Sendable, OneLine, OneLineType, sse_events-render}

abbrev same : List ℕ → List ℕ
same b = b

abbrev greeting : SseEvent
greeting = record { event = some (codes "ping"); payload = codes "hi" }

abbrev nameless : SseEvent
nameless = record { event = none; payload = [] }

-- The type of the event is cut between two chunks, with a transport error between them.
abbrev stream : List (Chunk (List ℕ))
stream =
    bytes (codes "event: pi")
    ∷ broken "reset"
    ∷ bytes (codes "ng\ndata: hi\n\nda")
    ∷ bytes (codes "ta: \n\n")
    ∷ []

-- Nothing after the sentinel is read, and comments and an empty type are skipped.
sentinel :
    sse_events same new_decoder
      (bytes (codes ": note\r\ndata:hi\r\ndata: [DONE]\n") ∷ bytes (codes "data: x\n") ∷ [])
    ≡ event (record { event = none; payload = codes "hi" }) ∷ []
unfolding sse_events read_line trim is_whitespace strip_prefix eq_codes
sentinel = refl

stream-Fits : Fits (render (greeting ∷ nameless ∷ []))
unfolding Fits render lines_of byte_len len_utf8
stream-Fits = ground arith

sent-Fits : Fits (same (sent stream))
unfolding Fits sent lines_of byte_len len_utf8
sent-Fits = ground arith

events-Sendable : All Sendable (greeting ∷ nameless ∷ [])
unfolding Sendable OneLine OneLineType trim_start trim_end is_whitespace eq_codes
events-Sendable = ground arith

sent-render : same (sent stream) ≡ render (greeting ∷ nameless ∷ [])
unfolding sent render
sent-render = refl

none_from_none : same [] ≡ []
none_from_none = refl

same-IsWhole : (b : List ℕ) → IsWhole same b
unfolding IsWhole
same-IsWhole b = λ rest. refl

stream-CutBetween : CutBetween same stream
stream-CutBetween = (same-IsWhole _, (same-IsWhole _, (same-IsWhole _, tt)))

sse_events-render_example : yielded (sse_events same new_decoder stream) ≡ greeting ∷ nameless ∷ []
sse_events-render_example =
    sse_events-render same (greeting ∷ nameless ∷ []) stream events-Sendable none_from_none
      stream-CutBetween sent-render stream-Fits

sse_events-consume_example :
    yielded (sse_events same new_decoder stream)
    ≡ (consume (lines_of (same (sent stream))).0 none).events
sse_events-consume_example =
    sse_events-consume same stream none_from_none stream-CutBetween sent-Fits

new-short : byte_len new_decoder.buffer ≤ max_line_bytes
unfolding byte_len
new-short = omega arith

step-Capped_example :
    ((step same new_decoder (bytes (codes "da"))).1 ≡ none)
    ⊎ ((next : Decoder) × ((step same new_decoder (bytes (codes "da"))).1 ≡ some next)
        × (byte_len next.buffer ≤ max_line_bytes))
step-Capped_example = step-Capped same new_decoder (bytes (codes "da")) new-short
