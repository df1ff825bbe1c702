-- ===== src/Tests/Route.antt =====
-- crates/himadri/src/gateway/route.rs on two endpoints.
use himadri.Common.{
  ℕ, zero, suc, ◌≡◌, ◌≢◌, refl, eq_iff, List, [], ◌∷◌, false, String, none, some, arith, All,
  lookup,
}
use text.Mathlib.Text.{◌==◌ as str_eq}
use himadri.Types.{Target, contains}
use himadri.Errors.{ProviderError, api, provider_retryable}
use himadri.Rbac.Access.{Checked, check_provider}
use himadri.Rbac.Pattern.{pattern_matches, any_match}
use himadri.Policy.Checks.{Result, ok, principal}
use himadri.Breaker.{allow}
use himadri.Route.Targets.{routing_key, select_targets, target_serves_model, permitted}
use himadri.Route.Failover.{
  Outcome, done, failed, Clock, Routing, breaker_of, Run, judge, with_failover,
}
use himadri.Route.Plan.{answer_of, first_final, verdict_of, with_failover-first_final}
use himadri.Route.Permitted.{select_targets-check_provider}
use himadri.Common.{◌↔◌}
use himadri.Policy.Config.{scopes}
use himadri.Policy.Checks.{check_token_budgets, check_rbac_model}
use himadri.Policy.Guardrails.{ModelPasses, GuardrailPasses}
use himadri.Policy.RateLimits.{check_rate_limits}
use himadri.Plugins.Manager.{run_before}
use himadri.Plugins.Context.{PluginContext, from_request}
use himadri.Route.Prologue.{prepare_request, prepare_request_iff}
use himadri.Tests.Limiter.{first_code, limiter, readings}
use himadri.Tests.Plugins.{no_plugins}
use himadri.Strategy.Select.{fallback, select_ordered, same_endpoint}
use himadri.Tests.Policy.{worded, same, config, member, request}
use himadri.Tests.Strategy.{ops, lowest}

abbrev endpoint : String → String → Target ℕ
endpoint id provider = record {
  id = some id;
  provider = provider;
  weight = 1;
  models = some ("gpt-4o" ∷ []);
  api_key_env = none;
  base_url = none;
}

abbrev first : Target ℕ
first = endpoint "e1" "openai"

abbrev second : Target ℕ
second = endpoint "e2" "anthropic"

abbrev clients : List (String × ℕ)
clients = ("e1", 1) ∷ ("e2", 2) ∷ []

abbrev no_key : Target ℕ → Result String
no_key t = ok ""

differ : (a b : String) → str_eq a b ≡ false → a ≢ b
differ a b h e = ground (arith, eq_iff a b)

-- The first call fails with 503, the second succeeds.
abbrev call : ℕ → ℕ → String → Outcome String ProviderError
call zero client key = failed (api 503 "down")
call (suc n) client key = done "hello"

abbrev clock : ℕ → Clock
clock i = record { asked = 10; failed_at = 20; latency_ms = 30 }

abbrev routing : Routing
routing = record { circuit_breakers = []; latency_store = none }

with_failover-first_final_example :
    (run : Run ℕ String) × (with_failover clients no_key call clock (first ∷ second ∷ []) routing
      ≡ some run)
    × (answer_of run ≡ (second, done "hello"))
unfolding routing_key first_final verdict_of allow breaker_of lookup judge provider_retryable
with_failover-first_final_example =
    with_failover-first_final clients no_key call clock first (second ∷ []) routing
      ((differ "e1" "e2" refl, tt), (tt, tt))

-- Only the first endpoint's provider is permitted to the caller's role.
only_first :
    select_targets worded same lowest ops fallback config
      (second ∷ first ∷ [])
      request
      (some member)
    ≡ ok (first ∷ [])
unfolding select_targets target_serves_model contains select_ordered permitted check_provider lookup
    any_match pattern_matches same_endpoint
only_first = refl

select_targets-check_provider_example :
    All
      (λ t.
        check_provider config.rbac
          (principal (some member)).0
          (principal (some member)).1
          t.provider
        ≡ Checked.ok)
      (first ∷ [])
select_targets-check_provider_example =
    select_targets-check_provider ops same lowest worded config (some member) fallback
      (second ∷ first ∷ []) (first ∷ []) request only_first

abbrev started : PluginContext ℕ String
started = record (from_request "r1" request (some member)) { remote_ip = some "10.0.0.1" }

prepare_request_iff_example :
    (prepare_request worded same first_code "r1"
        (some member)
        config
        request
        (some "10.0.0.1")
        no_plugins
        readings
        readings
        readings
        limiter
      ≡ some (limiter, ok started))
    ↔ ((check_rate_limits first_code (some member) config readings readings readings limiter
          ≡ some (limiter, ok tt))
        × (check_token_budgets worded same (some member) config request ≡ ok tt)
        × (All (ModelPasses "gpt-4o") (scopes config (some "o") (some "t"))
            × All (GuardrailPasses same request) (scopes config (some "o") (some "t")))
        × (check_rbac_model worded same (some member) config "gpt-4o" ≡ ok tt)
        × (run_before no_plugins started ≡ (started, none)))
prepare_request_iff_example =
    prepare_request_iff worded same first_code "r1" member config request (some "10.0.0.1")
      no_plugins started readings readings readings limiter limiter
