-- ===== src/Tests/Plugins.antt =====
-- crates/himadri-plugin/src/manager.rs on three plugins; the context is a number.
use himadri.Common.{ℕ, ◌≡◌, ◌+◌, refl, true, false, List, [], ◌∷◌, none, some}
use himadri.Plugins.Manager.{
  before_request, after_request, Plugin, PluginManager, internal, register, register_all,
  ResponseGuardrail, allow, reject, action,
}

abbrev budget : Plugin ℕ
budget = record {
  name = "budget";
  stage = before_request;
  also_after_request = true;
  execute = λ n. (n + 1, none);
}

abbrev blocker : Plugin ℕ
blocker = record {
  name = "blocker";
  stage = before_request;
  also_after_request = false;
  execute = λ n. (n + 10, some (internal "blocked"));
}

abbrev logger : Plugin ℕ
logger = record {
  name = "logger";
  stage = after_request;
  also_after_request = true;
  execute = λ n. (n + 100, none);
}

abbrev all_plugins : List (Plugin ℕ)
all_plugins = budget ∷ blocker ∷ logger ∷ []

abbrev pub no_plugins : {Ctx : Type 0} → PluginManager Ctx
no_plugins = record {
  before = [];
  after = [];
  after_response = [];
  on_error = [];
  response_guardrails = [];
}

logger_once : (register_all all_plugins no_plugins).after ≡ budget ∷ logger ∷ []
unfolding register_all register
logger_once = refl

abbrev allowing : ResponseGuardrail ℕ
allowing = record { name = "allowing"; check_response = λ n response. action allow }

abbrev rejecting : ResponseGuardrail ℕ
rejecting = record { name = "rejecting"; check_response = λ n response. action (reject response) }
