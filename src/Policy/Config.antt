-- ===== src/Policy/Config.antt =====
-- crates/himadri-core/src/config.rs and src/scope.rs: the part of the configuration that the request
-- policy reads, and the walk from a principal to its scopes.
use himadri.Common.{ℕ, String, Bool, List, [], ◌∷◌, Option, none, some, lookup, ◌>>=◌}
use himadri.Rbac.Access.{RbacConfig}

pub record RateLimitConfig : Type 0 where
  pub enabled : Bool
  pub requests_per_second : ℕ
  pub burst_size : ℕ

-- The limits by day, by month and by cost are not read by the request policy.
pub record OrgTokenBudget : Type 0 where
  pub max_tokens_per_request : Option ℕ

pub record OrgGuardrailConfig : Type 0 where
  pub enabled : Bool
  pub blocked_words : List String
  pub max_tokens_per_request : Option ℕ

pub record TeamConfig : Type 0 where
  pub allowed_models : Option (List String)
  pub blocked_models : Option (List String)
  pub token_budget : Option OrgTokenBudget
  pub guardrails : OrgGuardrailConfig

pub record OrgConfig : Type 0 where
  pub allowed_models : Option (List String)
  pub blocked_models : Option (List String)
  pub rate_limit : Option RateLimitConfig
  pub token_budget : Option OrgTokenBudget
  pub guardrails : OrgGuardrailConfig
  pub teams : List (String × TeamConfig)

pub record Config : Type 0 where
  pub rate_limit : RateLimitConfig
  pub orgs : List (String × OrgConfig)
  pub rbac : RbacConfig

pub data ScopeKind : Type 0 where
  org team : ScopeKind

pub record Scope : Type 0 where
  pub kind : ScopeKind
  pub id : String
  pub allowed_models : Option (List String)
  pub blocked_models : Option (List String)
  pub token_budget : Option OrgTokenBudget
  pub guardrails : OrgGuardrailConfig

abbrev pub org_scope : String → OrgConfig → Scope
org_scope id o = record {
  kind = org;
  id = id;
  allowed_models = o.allowed_models;
  blocked_models = o.blocked_models;
  token_budget = o.token_budget;
  guardrails = o.guardrails;
}

abbrev pub team_scope : String → TeamConfig → Scope
team_scope id t = record {
  kind = team;
  id = id;
  allowed_models = t.allowed_models;
  blocked_models = t.blocked_models;
  token_budget = t.token_budget;
  guardrails = t.guardrails;
}

-- `id.and_then(|id| map.get_key_value(id))`
unfoldable pub find_entry {ℓ} :
    {V : Type ℓ} → Option String → List (String × V) → Option (String × V)
find_entry id m = do key ← id; v ← lookup key m; some (key, v)

unfoldable pub team_scopes : Option String → OrgConfig → List Scope
unfolding find_entry
team_scopes team_id o = elim (find_entry team_id o.teams) [
  | none ↦ []
  | some (id, t) ↦ team_scope id t ∷ []
]

unfoldable pub scopes : Config → Option String → Option String → List Scope
unfolding find_entry team_scopes
scopes config org_id team_id = elim (find_entry org_id config.orgs) [
  | none ↦ []
  | some (id, o) ↦ org_scope id o ∷ team_scopes team_id o
]
