-- ===== src/Tests/Streaming.antt =====
-- crates/himadri/src/gateway/stream.rs on a stream with an error, polled once more after its end.
use himadri.Common.{ℕ, ◌≡◌, refl, [], ◌∷◌, List, none, some, false, String}
use himadri.Types.{Usage}
use himadri.Errors.{ProviderError, api}
use himadri.Rbac.Pattern.{codes}
use himadri.Route.Streaming.{
  StreamChunk, StreamUsageRecorder, GuardrailStream, Poll, chunk, failed, ended, pending, accounted,
  reviewed, outcome, life, default_stream_buffer_limit,
}
use himadri.Route.Accounting.{accounts, summary, life-accounts}

abbrev display : ProviderError → String
display e = "API error"

abbrev recorder : StreamUsageRecorder
recorder = record {
  provider = "openai";
  model = "gpt-4o";
  api_key_id = some "k1";
  usage = none;
  error = none;
  recorded = false;
}

abbrev opened : GuardrailStream
opened = record {
  buffer = [];
  buffer_limit = default_stream_buffer_limit;
  guardrails_ran = false;
  recorder = recorder;
}

abbrev tokens : Usage
tokens = record { prompt_tokens = 10; completion_tokens = 20; total_tokens = 30 }

abbrev hi : StreamChunk
hi = record { choices = record { index = 0; content = some (codes "hi") } ∷ []; usage = none }

abbrev last : StreamChunk
last = record { choices = []; usage = some tokens }

abbrev polls : List (ℕ × Poll)
polls =
    (1, pending)
    ∷ (2, chunk hi)
    ∷ (3, failed (api 503 "down"))
    ∷ (4, chunk last)
    ∷ (5, ended)
    ∷ (6, ended)
    ∷ []

-- One account, of the first end, and one review.
whole_life :
    life display polls 9 opened
    ≡ accounted (outcome 5 (record recorder { usage = some tokens; error = some "API error" }))
      ∷ reviewed (codes "hi")
      ∷ []
unfolding life himadri.Sse.byte_len himadri.Sse.len_utf8
whole_life = refl

-- A client that goes away is accounted as well, and nothing is reviewed.
dropped : life display ((2, chunk hi) ∷ []) 9 opened ≡ accounted (outcome 9 recorder) ∷ []
unfolding life
dropped = refl

life-accounts_example :
    accounts (life display polls 9 opened) ≡ summary display polls 9 recorder ∷ []
life-accounts_example = life-accounts display polls 9 opened refl
