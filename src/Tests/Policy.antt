-- ===== src/Tests/Policy.antt =====
-- crates/himadri/src/gateway/policy.rs on an organisation with one team.
use himadri.Common.{ℕ, ◌≡◌, ◌↔◌, ◌⊎◌, refl, [], ◌∷◌, true, false, String, none, some, arith}
use himadri.Types.{AuthContext, api_key, ChatCompletionRequest, user, text}
use himadri.Errors.{rate_limited}
use himadri.Limiter.Store.{RateLimiter}
use himadri.Limiter.Isolation.{IsReady}
use himadri.Policy.Config.{
  RateLimitConfig, OrgGuardrailConfig, TeamConfig, OrgConfig, Config, scopes,
}
use himadri.Policy.Checks.{Result, ok, err, PolicyDenial, check_org_guardrails}
use himadri.Policy.Guardrails.{ModelPasses, GuardrailPasses, check_org_guardrails_iff}
use himadri.Policy.Narrowing.{check_org_guardrails_narrows}
use himadri.Policy.RateLimits.{check_rate_limits, Keeps, Own, check_rate_limits_lem}
use himadri.Tests.Rbac.{access}
use himadri.Tests.Limiter.{first_code, limiter, readings}
use himadri.Common.{All, lookup}
use himadri.Types.{contains, flat_text}
use himadri.Rbac.Pattern.{find_after, strip_prefix}
use himadri.Policy.Checks.{
  not_allowed, blocked, scan_messages, message_texts, find_word, contains_text,
}

abbrev pub worded : PolicyDenial → String
worded d = "denied"

abbrev pub same : String → String
same s = s

abbrev limits : RateLimitConfig
limits = record { enabled = true; requests_per_second = 5; burst_size = 10 }

abbrev rules : OrgGuardrailConfig
rules = record { enabled = true; blocked_words = "secret" ∷ []; max_tokens_per_request = some 100 }

abbrev team : TeamConfig
team = record {
  allowed_models = some ("gpt-4o" ∷ []);
  blocked_models = none;
  token_budget = some (record { max_tokens_per_request = some 50 });
  guardrails = rules;
}

abbrev organisation : OrgConfig
organisation = record {
  allowed_models = none;
  blocked_models = some ("gpt-2" ∷ []);
  rate_limit = some limits;
  token_budget = some (record { max_tokens_per_request = some 80 });
  guardrails = rules;
  teams = ("t", team) ∷ [];
}

abbrev pub config : Config
config = record { rate_limit = limits; orgs = ("o", organisation) ∷ []; rbac = access }

abbrev pub member : AuthContext ℕ
member = record {
  api_key = "sk";
  key_id = some "k";
  scope = api_key;
  org_id = some "o";
  team_id = some "t";
  user_id = none;
  rate_limit_override = none;
  roles = "developer" ∷ [];
  budget_limit_usd = none;
}

abbrev pub request : ChatCompletionRequest
request = record {
  model = "gpt-4o";
  messages = record { role = user; content = some (text "hello") } ∷ [];
  stream = false;
  max_tokens = some 40;
}

request_passes : check_org_guardrails worded same (some member) config request ≡ ok tt
unfolding check_org_guardrails scopes lookup not_allowed blocked contains scan_messages
    message_texts find_word contains_text find_after flat_text strip_prefix
request_passes = refl

check_org_guardrails_iff_example :
    (check_org_guardrails worded same (some member) config request ≡ ok tt) ↔ (
      All (ModelPasses "gpt-4o") (scopes config (some "o") (some "t"))
      × All (GuardrailPasses same request) (scopes config (some "o") (some "t")))
check_org_guardrails_iff_example = check_org_guardrails_iff worded same member config request

check_org_guardrails_narrows_example :
    check_org_guardrails worded same (some (record member { team_id = none })) config request
    ≡ ok tt
check_org_guardrails_narrows_example =
    check_org_guardrails_narrows worded same member config request request_passes

limiter-IsReady : IsReady limiter.per_entity
limiter-IsReady = record { some_shard = omega arith; all_shards = refl }

check_rate_limits_lem_example :
    (l' : RateLimiter) × (r : Result (Unit {0})) × (check_rate_limits first_code
        (some member)
        config
        readings
        readings
        readings
        limiter
      ≡ some (l', r))
    × ((r ≡ ok tt) ⊎ (r ≡ err (rate_limited 1)))
    × Keeps first_code (Own (some member)) limiter l'
check_rate_limits_lem_example =
    check_rate_limits_lem first_code (some member) config readings readings readings limiter
      limiter-IsReady limiter-IsReady
