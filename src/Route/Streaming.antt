-- ===== src/Route/Streaming.antt =====
-- crates/himadri/src/gateway/stream.rs, `GuardrailStream` and `StreamUsageRecorder`: what a streamed
-- answer is accounted as, and when the response guardrails run. A text is the list of its code points;
-- `display` words an error of the provider. The elapsed time is an argument of what may read it.
use himadri.Common.{
  ℕ, ◌*◌, String, Bool, true, false, not, ◌&&◌, List, [], ◌∷◌, ◌++◌, Option, none, some,
  if◌then◌else◌, ltb,
}
use himadri.Types.{Usage}
use himadri.Errors.{ProviderError}
use himadri.Sse.{byte_len}

-- Of a choice, its index and the content of its delta.
pub record StreamChoice : Type 0 where
  pub index : ℕ
  pub content : Option (List ℕ)

pub record StreamChunk : Type 0 where
  pub choices : List StreamChoice
  pub usage : Option Usage

pub record AccountOutcome : Type 0 where
  pub provider : String
  pub model : String
  pub api_key_id : Option String
  pub usage : Option Usage
  pub error : Option String
  pub latency_ms : ℕ

pub record StreamUsageRecorder : Type 0 where
  pub provider : String
  pub model : String
  pub api_key_id : Option String
  pub usage : Option Usage
  pub error : Option String
  pub recorded : Bool

pub record GuardrailStream : Type 0 where
  pub buffer : List ℕ
  pub buffer_limit : ℕ
  pub guardrails_ran : Bool
  pub recorder : StreamUsageRecorder

-- What the inner stream answers to a poll.
pub data Poll : Type 0 where
  chunk : StreamChunk → Poll
  failed : ProviderError → Poll
  ended : Poll
  pending : Poll

-- What happens outside the stream: an entry in the accounts, or a run of the response guardrails.
pub data Effect : Type 0 where
  accounted : AccountOutcome → Effect
  reviewed : List ℕ → Effect

abbrev pub default_stream_buffer_limit : ℕ
default_stream_buffer_limit = 1024 * 1024

abbrev pub latest : {A : Type 0} → Option A → Option A → Option A
latest none before = before
latest (some a) before = some a

unfoldable pub observe_chunk : StreamChunk → StreamUsageRecorder → StreamUsageRecorder
observe_chunk c r = record r { usage = latest c.usage r.usage }

unfoldable pub observe_error : String → StreamUsageRecorder → StreamUsageRecorder
observe_error message r = record r { error = some message }

abbrev pub outcome : (elapsed : ℕ) → StreamUsageRecorder → AccountOutcome
outcome elapsed r = record {
  provider = r.provider;
  model = r.model;
  api_key_id = r.api_key_id;
  usage = r.usage;
  error = r.error;
  latency_ms = elapsed;
}

abbrev pub finish_if :
    Bool → (elapsed : ℕ) → StreamUsageRecorder → StreamUsageRecorder × List Effect
finish_if true elapsed r = (r, [])
finish_if false elapsed r = (record r { recorded = true }, accounted (outcome elapsed r) ∷ [])

unfoldable pub finish : (elapsed : ℕ) → StreamUsageRecorder → StreamUsageRecorder × List Effect
finish elapsed r = finish_if r.recorded elapsed r

abbrev pub is_empty : List ℕ → Bool
is_empty [] = true
is_empty (c ∷ cs) = false

-- The contents of the choices, one after another.
unfoldable pub contents : List StreamChoice → List ℕ
contents [] = []
contents (c ∷ cs) = elim c.content [ none ↦ contents cs | some text ↦ text ++ contents cs ]

unfoldable pub accumulate : StreamChunk → GuardrailStream → List ℕ
unfolding contents
accumulate c s =
    if ltb (byte_len s.buffer) s.buffer_limit then s.buffer ++ contents c.choices else s.buffer

abbrev pub review_if : Bool → GuardrailStream → GuardrailStream × List Effect
review_if false s = (s, [])
review_if true s = (record s { guardrails_ran = true }, reviewed s.buffer ∷ [])

-- The end of the stream: the accounts, and the guardrails on what was accumulated.
unfoldable pub review : GuardrailStream → GuardrailStream × List Effect
review s = review_if (not (is_empty s.buffer) && not s.guardrails_ran) s

module _ (display : ProviderError → String) where
  unfoldable pub poll_next : (elapsed : ℕ) → Poll → GuardrailStream → GuardrailStream × List Effect
  unfolding observe_chunk observe_error finish accumulate review
  poll_next elapsed (chunk c) s =
      (record s { buffer = accumulate c s; recorder = observe_chunk c s.recorder }, [])
  poll_next elapsed (failed e) s =
      (record s { recorder = observe_error (display e) s.recorder }, [])
  poll_next elapsed ended s =
      let finished = finish elapsed s.recorder in
      let reviewing = review (record s { recorder = finished.0 }) in
      (reviewing.0, finished.1 ++ reviewing.1)
  poll_next elapsed pending s = (s, [])

  -- The stream is polled any number of times, and then dropped.
  unfoldable pub life : List (ℕ × Poll) → (elapsed : ℕ) → GuardrailStream → List Effect
  unfolding poll_next finish
  life [] elapsed s = (finish elapsed s.recorder).1
  life ((t, p) ∷ polls) elapsed s =
      let polled = poll_next t p s in polled.1 ++ life polls elapsed polled.0
