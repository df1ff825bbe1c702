-- ===== src/Sse.antt =====
-- crates/himadri-provider/src/sse.rs: the decoder of a provider's server-sent events. A text is the
-- list of its code points. `lossy` is `String::from_utf8_lossy`, so that a chunk has any type `B`;
-- a transport error is given by its `Display` text. `&line[..]` is the list that is left.
pub mod Lines
pub mod Chunks
pub mod Rendering
use himadri.Common.{
  ℕ, ◌+◌, ◌*◌, String, Bool, true, false, ◌&&◌, ◌||◌, List, [], ◌∷◌, ◌++◌, Option, none, some,
  if◌then◌else◌, ltb, leb, ◌==◌, map,
}
use himadri.Errors.{ProviderError, network, parse}
use himadri.Rbac.Pattern.{codes, eq_codes, strip_prefix}

abbrev pub newline : ℕ
newline = b'\n'

-- `MAX_SSE_LINE_BYTES`
abbrev pub max_line_bytes : ℕ
max_line_bytes = 1024 * 1024

abbrev pub event_prefix : List ℕ
event_prefix = codes "event:"

abbrev pub data_prefix : List ℕ
data_prefix = codes "data:"

abbrev pub done_text : List ℕ
done_text = codes "[DONE]"

-- `payload` is the field `data`, a word of the language.
pub record SseEvent : Type 0 where
  pub event : Option (List ℕ)
  pub payload : List ℕ

-- `char::is_whitespace`
unfoldable pub is_whitespace : ℕ → Bool
is_whitespace c =
    (leb 9 c && leb c 13)
    || (c == 32)
    || (c == 133)
    || (c == 160)
    || (c == 5760)
    || (leb 8192 c && leb c 8202)
    || (c == 8232)
    || (c == 8233)
    || (c == 8239)
    || (c == 8287)
    || (c == 12288)

-- `char::len_utf8`, and the `len` of a `String`.
unfoldable pub len_utf8 : ℕ → ℕ
len_utf8 c = if ltb c 128 then 1 else if ltb c 2048 then 2 else if ltb c 65536 then 3 else 4

unfoldable pub byte_len : List ℕ → ℕ
byte_len [] = 0
byte_len (c ∷ cs) = len_utf8 c + byte_len cs

unfoldable pub trim_start : List ℕ → List ℕ
trim_start [] = []
trim_start (c ∷ cs) = if is_whitespace c then trim_start cs else c ∷ cs

-- A character stands unless it is whitespace and all after it is.
abbrev pub keep : ℕ → List ℕ → List ℕ
keep c [] = if is_whitespace c then [] else c ∷ []
keep c (d ∷ ds) = c ∷ d ∷ ds

unfoldable pub trim_end : List ℕ → List ℕ
trim_end [] = []
trim_end (c ∷ cs) = keep c (trim_end cs)

unfoldable pub trim : List ℕ → List ℕ
unfolding trim_start trim_end
trim line = trim_end (trim_start line)

-- The lines that `find('\n')` finds in turn from the cursor on, and what is left after the last one.
abbrev pub push_first : ℕ → List (List ℕ) × List ℕ → List (List ℕ) × List ℕ
push_first c ([], tail) = ([], c ∷ tail)
push_first c (line ∷ lines, tail) = ((c ∷ line) ∷ lines, tail)

unfoldable pub lines_of : List ℕ → List (List ℕ) × List ℕ
lines_of [] = ([], [])
lines_of (c ∷ cs) =
    let later = lines_of cs in if c == newline then ([] ∷ later.0, later.1) else push_first c later

pub data Line : Type 0 where
  blank : Line
  event_line : List ℕ → Line
  data_line : List ℕ → Line
  finish : Line
  ignored : Line

abbrev pub data_or_done : List ℕ → Line
data_or_done payload = if eq_codes payload done_text then finish else data_line payload

abbrev pub read_fields : List ℕ → Line
read_fields line = elim (strip_prefix event_prefix line) [
  | some event ↦ event_line (trim_start event)
  | none ↦ elim (strip_prefix data_prefix line) [
    | some payload ↦ data_or_done (trim_start payload)
    | none ↦ ignored
  ]
]

-- What a trimmed line says.
unfoldable pub read_line : List ℕ → Line
read_line [] = blank
read_line (c ∷ cs) = read_fields (c ∷ cs)

-- What the lines of one chunk give: the events, the `current_event` after them, and whether the stream
-- has ended.
pub record Consumed : Type 0 where
  pub events : List SseEvent
  pub current_event : Option (List ℕ)
  pub ended : Bool

abbrev pub yielding : SseEvent → Consumed → Consumed
yielding e later = record later { events = e ∷ later.events }

-- One turn of the inner loop: `later` is what the lines after this one give.
abbrev pub apply_line : Line → Option (List ℕ) → (Option (List ℕ) → Consumed) → Consumed
apply_line blank event later = later none
apply_line (event_line e) event later = later (some e)
apply_line (data_line d) event later =
    yielding (record { event = event; payload = d }) (later event)
apply_line finish event later = record { events = []; current_event = event; ended = true }
apply_line ignored event later = later event

unfoldable pub consume : List (List ℕ) → Option (List ℕ) → Consumed
consume [] event = record { events = []; current_event = event; ended = false }
consume (line ∷ lines) event = apply_line (read_line (trim line)) event (consume lines)

-- The decoder between two chunks.
pub record Decoder : Type 0 where
  pub buffer : List ℕ
  pub current_event : Option (List ℕ)

abbrev pub new_decoder : Decoder
new_decoder = record { buffer = []; current_event = none }

pub data Chunk (B : Type 0) : Type 0 where
  bytes : B → Chunk B
  broken : String → Chunk B

pub data Item : Type 0 where
  event : SseEvent → Item
  error : ProviderError → Item

abbrev pub too_long : String
too_long = "SSE line exceeds maximum buffered size"

-- After the lines of a chunk, given whether the stream has ended and whether the tail is too long: the
-- end, or the decoder with the tail in the buffer.
abbrev pub conclude : (ended long : Bool) → List ℕ → Consumed → List Item × Option Decoder
conclude true long tail c = (map event c.events, none)
conclude false true tail c = (map event c.events ++ (error (parse too_long) ∷ []), none)
conclude false false tail c =
    (map event c.events, some (record { buffer = tail; current_event = c.current_event }))

abbrev pub after_lines : List ℕ → Consumed → List Item × Option Decoder
after_lines tail c = conclude c.ended (ltb max_line_bytes (byte_len tail)) tail c

abbrev pub proceed : List Item × Option Decoder → (Decoder → List Item) → List Item
proceed (items, none) later = items
proceed (items, some next) later = items ++ later next

module _ {B : Type 0} (lossy : B → List ℕ) where
  -- One chunk: what is yielded, and the decoder after it unless the stream ends.
  unfoldable pub step : Decoder → Chunk B → List Item × Option Decoder
  unfolding lines_of consume
  step d (bytes b) =
      after_lines (lines_of (d.buffer ++ lossy b)).1
        (consume (lines_of (d.buffer ++ lossy b)).0 d.current_event)
  step d (broken e) = (error (network e) ∷ [], some d)

  unfoldable pub sse_events : Decoder → List (Chunk B) → List Item
  unfolding step
  sse_events d [] = []
  sse_events d (c ∷ cs) = proceed (step d c) (λ next. sse_events next cs)
