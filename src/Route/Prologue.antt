-- ===== src/Route/Prologue.antt =====
-- crates/himadri/src/gateway/route.rs, `prepare_request`: the checks of every request, in the order
-- of the code, and the before-request plugins.
use himadri.Common.{ℕ, ◌≡◌, ◌↔◌, refl, ap, String, Option, none, some, All}
use himadri.Types.{AuthContext, ChatCompletionRequest}
use himadri.Errors.{GatewayError, quota_exceeded}
use himadri.Limiter.Store.{Readings, RateLimiter}
use himadri.Policy.Config.{Config, scopes}
use himadri.Policy.Checks.{
  Result, ok, err, ◌>>◌, PolicyDenial, check_org_guardrails, check_token_budgets, check_rbac_model,
}
use himadri.Policy.RateLimits.{check_rate_limits}
use himadri.Policy.Guardrails.{ModelPasses, GuardrailPasses, check_org_guardrails_iff}
use himadri.Plugins.Context.{PluginContext, from_request}
use himadri.Plugins.Manager.{
  RejectKind, budget_exceeded, PluginError, rejected, error_text, PluginManager, run_before,
}

unfoldable pub map_plugin_error : PluginError → GatewayError
map_plugin_error (rejected name reason (RejectKind.rate_limited secs)) =
    GatewayError.rate_limited secs
map_plugin_error (rejected name reason budget_exceeded) = quota_exceeded reason
map_plugin_error (rejected name reason RejectKind.forbidden) = GatewayError.forbidden reason
map_plugin_error (rejected name reason RejectKind.bad_request) =
    GatewayError.bad_request (error_text (rejected name reason RejectKind.bad_request))
map_plugin_error (PluginError.internal m) =
    GatewayError.internal (error_text (PluginError.internal m))

-- The context that the plugins leave, or the error of the one that failed.
abbrev pub prepared : {Ctx : Type 0} → Ctx × Option PluginError → Result Ctx
prepared (ctx, none) = ok ctx
prepared (ctx, some e) = err (map_plugin_error e)

-- The context that the plugins begin with; `id` is the random id of the request.
abbrev pub context_for :
    {F J : Type 0}
    → String
    → Option (AuthContext F)
    → ChatCompletionRequest
    → Option String
    → PluginContext F J
context_for id auth request remote_ip = record (from_request id request auth) {
  remote_ip = remote_ip;
}

-- What follows the rate limits; a panic ends everything.
abbrev pub after_limits :
    {A : Type 0}
    → Option (RateLimiter × Result (Unit {0}))
    → Result A
    → Option (RateLimiter × Result A)
after_limits none later = none
after_limits (some (l, limited)) later = some (l, limited >> later)

module _ {F J : Type 0} (wording : PolicyDenial → String) (to_lowercase : String → String) where
  -- The checks that do not change any state, and the plugins.
  unfoldable pub check_and_run :
      String
      → Option (AuthContext F)
      → Config
      → ChatCompletionRequest
      → (remote_ip : Option String) → PluginManager (PluginContext F J)
      → Result (PluginContext F J)
  check_and_run id auth config request remote_ip manager = do
    check_token_budgets wording to_lowercase auth config request
    check_org_guardrails wording to_lowercase auth config request
    check_rbac_model wording to_lowercase auth config request.model
    prepared (run_before manager (context_for id auth request remote_ip))

  -- The rate limits come first; `t`, `u` and `v` are their readings of the clock.
  unfoldable pub prepare_request :
      (String → ℕ)
      → (id : String) → Option (AuthContext F)
      → Config
      → ChatCompletionRequest
      → (remote_ip : Option String) → PluginManager (PluginContext F J)
      → Readings
      → Readings
      → Readings
      → RateLimiter
      → Option (RateLimiter × Result (PluginContext F J))
  unfolding check_and_run
  prepare_request hash id auth config request remote_ip manager t u v l =
      after_limits (check_rate_limits hash auth config t u v l)
        (check_and_run id auth config request remote_ip manager)

>>_iff :
    {A : Type 0} (m : Result (Unit {0})) (k : Result A) (a : A)
    → ((m >> k) ≡ ok a) ↔ ((m ≡ ok tt) × (k ≡ ok a))
>>_iff (ok tt) k a = (λ h. (refl, h), λ h. h.1)
>>_iff (err e) k a = (λ h. cc, λ h. cc)

prepared_iff :
    {Ctx : Type 0} (r : Ctx × Option PluginError) (c : Ctx) → (prepared r ≡ ok c) ↔ (r ≡ (c, none))
prepared_iff (ctx, none) c = (λ h. cc, λ h. cc)
prepared_iff (ctx, some e) c = (λ h. cc, λ h. absurd (cc (ap (λ p. p.1) h)))

after_limits_iff :
    {A : Type 0} (r : Option (RateLimiter × Result (Unit {0}))) (k : Result A) (l : RateLimiter)
    (a : A)
    → (after_limits r k ≡ some (l, ok a)) ↔ ((r ≡ some (l, ok tt)) × (k ≡ ok a))
after_limits_iff none k l a = (λ h. cc, λ h. cc (h.0))
after_limits_iff (some (l', limited)) k l a =
    let (to, from) = >>_iff limited k a in
    (
      λ h. let passed : (limited >> k) ≡ ok a = cc in let (first, later) = to passed in (cc, later),
      λ (first, later).
          let limited_ok : limited ≡ ok tt = cc in let passed = from (limited_ok, later) in cc,
    )

module _ {F J : Type 0} (wording : PolicyDenial → String) (to_lowercase : String → String) where
  check_and_run_iff :
      (id : String) (auth : Option (AuthContext F)) (config : Config)
      (request : ChatCompletionRequest) (remote_ip : Option String)
      (manager : PluginManager (PluginContext F J)) (c : PluginContext F J)
      → (check_and_run wording to_lowercase id auth config request remote_ip manager ≡ ok c) ↔ (
          (check_token_budgets wording to_lowercase auth config request ≡ ok tt)
          × (check_org_guardrails wording to_lowercase auth config request ≡ ok tt)
          × (check_rbac_model wording to_lowercase auth config request.model ≡ ok tt)
          × (run_before manager (context_for id auth request remote_ip) ≡ (c, none)))
  unfolding check_and_run
  check_and_run_iff id auth config request remote_ip manager c =
      let begun = context_for id auth request remote_ip in
      let run = prepared (run_before manager begun) in
      let rbac = check_rbac_model wording to_lowercase auth config request.model in
      let guardrails = check_org_guardrails wording to_lowercase auth config request in
      let budgets = check_token_budgets wording to_lowercase auth config request in
      let (to_run, from_run) = prepared_iff (run_before manager begun) c in
      let (to_rbac, from_rbac) = >>_iff rbac run c in
      let (to_guardrails, from_guardrails) = >>_iff guardrails (rbac >> run) c in
      let (to_budgets, from_budgets) = >>_iff budgets (guardrails >> (rbac >> run)) c in
      (
        λ h.
            let (b, h1) = to_budgets h in
            let (g, h2) = to_guardrails h1 in let (r, h3) = to_rbac h2 in (b, g, r, to_run h3),
        λ (b, g, r, p). from_budgets (b, from_guardrails (g, from_rbac (r, from_run p))),
      )

  -- A request of an authenticated caller is prepared, with the limiter `l'` and the context `c`,
  -- exactly when its rate limits pass and leave `l'`, its token caps pass, every scope that applies
  -- to the caller lets its model through and has its guardrails off or respected, its roles permit
  -- the model, and no before-request plugin fails on the context made of the
  -- request, the caller and its address, the last leaving `c`.
  pub prepare_request_iff :
      (hash : String → ℕ) (id : String) (auth : AuthContext F) (config : Config)
      (request : ChatCompletionRequest) (remote_ip : Option String)
      (manager : PluginManager (PluginContext F J)) (c : PluginContext F J) (t u v : Readings)
      (l l' : RateLimiter)
      → (prepare_request wording to_lowercase hash id
            (some auth)
            config
            request
            remote_ip
            manager
            t
            u
            v
            l
          ≡ some (l', ok c))
        ↔ ((check_rate_limits hash (some auth) config t u v l ≡ some (l', ok tt))
            × (check_token_budgets wording to_lowercase (some auth) config request ≡ ok tt)
            × (All (ModelPasses request.model) (scopes config auth.org_id auth.team_id)
                × All
                    (GuardrailPasses to_lowercase request)
                    (scopes config auth.org_id auth.team_id))
            × (check_rbac_model wording to_lowercase (some auth) config request.model ≡ ok tt)
            × (run_before manager
                  (record (from_request id request (some auth)) { remote_ip = remote_ip })
                ≡ (c, none)))
  unfolding prepare_request
  prepare_request_iff hash id auth config request remote_ip manager c t u v l l' =
      let (to_l, from_l) =
        after_limits_iff (check_rate_limits hash (some auth) config t u v l)
          (check_and_run wording to_lowercase id (some auth) config request remote_ip manager) l'
          c in
      let (to_c, from_c) = check_and_run_iff id (some auth) config request remote_ip manager c in
      let (to_g, from_g) = check_org_guardrails_iff wording to_lowercase auth config request in
      (
        λ h.
            let (limited, later) = to_l h in
            let (b, g, r, p) = to_c later in (limited, b, to_g g, r, p),
        λ (limited, b, g, r, p). from_l (limited, from_c (b, from_g g, r, p)),
      )
