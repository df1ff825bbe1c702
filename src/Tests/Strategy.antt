-- ===== src/Tests/Strategy.antt =====
-- crates/himadri/src/strategy.rs and latency_store.rs on three targets; ℕ stands for `f64`.
use himadri.Common.{
  Option, ℕ, ◌≡◌, refl, List, [], ◌∷◌, false, String, none, leb, ltb, ◌+◌, ◌-◌, max, unwrap_or,
}
use himadri.Types.{Target, ChatCompletionRequest}
use himadri.Policy.Checks.{ok}
use himadri.Strategy.Latency.{LatencyStore}
use himadri.Strategy.Select.{
  Floats, ConditionRule, model_prefix, load_balance, conditional, select_ordered, same_endpoint,
}
use himadri.Strategy.Coverage.{FirstMatch, select_ordered_conditional}

abbrev pub ops : Floats ℕ
ops = record {
  zero_f = 0;
  one_f = 1;
  add_f = λ a b. a + b;
  sub_f = λ a b. a - b;
  max_f = max;
  lt_f = ltb;
  le_f = leb;
}

abbrev target : String → ℕ → Target ℕ
target provider weight = record {
  id = none;
  provider = provider;
  weight = weight;
  models = none;
  api_key_env = none;
  base_url = none;
}

abbrev targets : List (Target ℕ)
targets = target "openai" 1 ∷ target "anthropic" 3 ∷ target "openai" 2 ∷ []

-- Each round draws the lowest number.
abbrev pub lowest : ℕ → ℕ → ℕ
lowest round total = 0

abbrev same : String → String
same s = s

abbrev request : ChatCompletionRequest
request = record { model = "claude-3"; messages = []; stream = false; max_tokens = none }

abbrev rule : ConditionRule ℕ
rule = record { key = model_prefix; value = "claude"; target = target "anthropic" 3 }

balanced :
    select_ordered ops same lowest load_balance request targets
    ≡ ok (target "openai" 1 ∷ target "anthropic" 3 ∷ [])
unfolding select_ordered same_endpoint
balanced = refl

select_ordered_conditional_example :
    (chosen : Option (Target ℕ)) × FirstMatch request (rule ∷ []) none chosen
    × (rest : List (Target ℕ)) × (select_ordered ops same lowest
          (conditional (rule ∷ []) none)
          request
          targets
        ≡ ok (unwrap_or chosen (target "openai" 1) ∷ rest))
select_ordered_conditional_example =
    select_ordered_conditional ops same lowest (rule ∷ []) none request (target "openai" 1)
      (target "anthropic" 3 ∷ target "openai" 2 ∷ [])

abbrev no_latencies : LatencyStore
no_latencies = []

abbrev latencies : LatencyStore
latencies = ("openai", record { sum = 90; count = 2 }) ∷ []
