-- ===== src/Policy/Narrowing.antt =====
-- crates/himadri/src/gateway/policy.rs: how a team's rules relate to its organisation's, and the token
-- caps of the scopes.
use himadri.Common.{
  ℕ, ◌≡◌, ◌↔◌, inl, inr, refl, String, List, [], ◌∷◌, Option, none, some, Option-cases, All, arith,
}
use himadri.Types.{AuthContext, ChatCompletionRequest}
use himadri.Policy.Config.{Config, Scope, scopes, find_entry, team_scopes}
use himadri.Policy.Checks.{
  ok, PolicyDenial, exceeds, budget_limit, check_budgets, check_token_budgets, check_org_guardrails,
}
use himadri.Policy.Guardrails.{
  ModelPasses, GuardrailPasses, check_org_guardrails_iff, Within, exceeds_iff,
}

-- The scopes without the team are the first of those with it.
scopes-All :
    (P : Scope → Type 0) (config : Config) (org_id team_id : Option String)
    → All P (scopes config org_id team_id)
    → All P (scopes config org_id none)
unfolding scopes team_scopes find_entry
scopes-All P config org_id team_id h = elim (Option-cases (find_entry org_id config.orgs)) [
  | inl e ↦ rw (e, scopes) tt
  | inr ((id, o), e) ↦ rw (e, scopes) ((rw (e, scopes) at h).0, tt)
]

module _ (wording : PolicyDenial → String) (to_lowercase : String → String) where
  check_budgets_iff :
      (requested : ℕ) (ss : List Scope)
      → (check_budgets wording to_lowercase requested ss ≡ ok tt)
        ↔ All (λ s. Within (some requested) (budget_limit s.token_budget)) ss
  unfolding check_budgets
  check_budgets_iff requested [] = (λ h. tt, λ h. refl)
  check_budgets_iff requested (s ∷ ss) =
      let limit = budget_limit s.token_budget in
      let (to_s, from_s) = exceeds_iff (some requested) limit in
      let (to, from) = check_budgets_iff requested ss in
      elim (Option-cases (exceeds (some requested) limit)) [
        | inl fits ↦ rw (fits, check_budgets) (λ h. (to_s fits, to h), λ c. from c.1)
        | inr (p, over) ↦
            rw (over, check_budgets) (λ h. absurd (cc), λ c. absurd (ground (arith, from_s c.0)))
      ]

module _ (wording : PolicyDenial → String) (to_lowercase : String → String) {F : Type 0} where
  -- What passes for a member of a team passes for the same principal without the team: a team's
  -- rules never let through what its organisation's reject.
  pub check_org_guardrails_narrows :
      (auth : AuthContext F) (config : Config) (request : ChatCompletionRequest)
      → check_org_guardrails wording to_lowercase (some auth) config request ≡ ok tt
      → check_org_guardrails wording to_lowercase
          (some (record auth { team_id = none }))
          config
          request
        ≡ ok tt
  check_org_guardrails_narrows auth config request h =
      let (models, guards) =
        (check_org_guardrails_iff wording to_lowercase auth config request).0 h in
      (check_org_guardrails_iff wording to_lowercase (record auth { team_id = none }) config
          request).1
        (
          scopes-All (ModelPasses request.model) config auth.org_id auth.team_id models,
          scopes-All (GuardrailPasses to_lowercase request) config auth.org_id auth.team_id guards,
        )

  -- A request that asks for a number of tokens passes the token caps exactly when no scope that
  -- applies to the principal caps a request below that number.
  pub check_token_budgets_iff :
      (auth : AuthContext F) (config : Config) (request : ChatCompletionRequest) (requested : ℕ)
      → request.max_tokens ≡ some requested
      → (check_token_budgets wording to_lowercase (some auth) config request ≡ ok tt)
        ↔ All
            (λ s. Within (some requested) (budget_limit s.token_budget))
            (scopes config auth.org_id auth.team_id)
  unfolding check_token_budgets
  check_token_budgets_iff auth config request requested e =
      rw (e, check_token_budgets)
        (check_budgets_iff wording to_lowercase requested (scopes config auth.org_id auth.team_id))
