-- ===== src/Plugins/Secrets.antt =====
-- crates/himadri-plugins/src/budget.rs and src/rate_limit.rs: what the bearer secret of a request is to
-- the plugins' stores.
use himadri.Common.{ℕ, ◌≡◌, refl, String, Bool, Option, none, some}
use himadri.Types.{AuthContext}
use himadri.Strategy.Select.{Floats}
use himadri.Plugins.Context.{PluginContext}
use himadri.Plugins.Budget.{BudgetPlugin, FloatCasts, spend_key}
use himadri.Plugins.Budget.{Registry as SpendRegistry, execute as budget_execute}
use himadri.Plugins.RateLimit.{
  RateLimitPlugin, Registry, Reading, get_api_key, get_user_id, check_scopes, execute,
}

abbrev with_secret_auth : {F : Type 0} → String → Option (AuthContext F) → Option (AuthContext F)
with_secret_auth secret none = none
with_secret_auth secret (some a) = some (record a { api_key = secret })

module _ {F J : Type 0} where
  -- The same request with another bearer secret.
  unfoldable pub with_secret : String → PluginContext F J → PluginContext F J
  with_secret secret ctx = record ctx { auth = with_secret_auth secret ctx.auth }

  module _ (as_str : J → Option String) (ops : Floats F) (casts : FloatCasts F)
      (wording : F → F → String) (hash : String → ℕ) (is_ip : String → Bool) where
    budget-with_secret :
        (secret : String) (budget : BudgetPlugin F) (now : ℕ) (auth : Option (AuthContext F))
        → (ctx : PluginContext F J) (spends : SpendRegistry)
        → budget_execute ops casts as_str wording budget now
            (record ctx { auth = with_secret_auth secret auth })
            spends
          ≡ budget_execute ops casts as_str wording budget now (record ctx { auth = auth }) spends
    unfolding budget_execute spend_key
    budget-with_secret secret budget now none ctx spends = refl
    budget-with_secret secret budget now (some a) ctx spends = refl

    limits-with_secret :
        (secret : String) (limits : RateLimitPlugin) (now : ℕ) (r1 r2 r3 : Reading)
        → (auth : Option (AuthContext F)) (ctx : PluginContext F J) (stores : Registry)
        → execute hash as_str is_ip limits now r1 r2 r3
            (record ctx { auth = with_secret_auth secret auth })
            stores
          ≡ execute hash as_str is_ip limits now r1 r2 r3 (record ctx { auth = auth }) stores
    unfolding execute check_scopes get_api_key get_user_id
    limits-with_secret secret limits now r1 r2 r3 none ctx stores = refl
    limits-with_secret secret limits now r1 r2 r3 (some a) ctx stores = refl

    -- Whom a request is charged to, whether it is rejected, and what the stores hold after it, are the same
    -- for every bearer secret that it may carry: both plugins go by the key's and the user's ids.
    pub execute-with_secret :
        (secret : String) (budget : BudgetPlugin F) (limits : RateLimitPlugin) (now : ℕ)
        → (r1 r2 r3 : Reading) (ctx : PluginContext F J) (spends : SpendRegistry)
        → (stores : Registry)
        → (budget_execute ops casts as_str wording budget now (with_secret secret ctx) spends
            ≡ budget_execute ops casts as_str wording budget now ctx spends)
          × (execute hash as_str is_ip limits now r1 r2 r3 (with_secret secret ctx) stores
              ≡ execute hash as_str is_ip limits now r1 r2 r3 ctx stores)
    unfolding with_secret
    execute-with_secret secret budget limits now r1 r2 r3 ctx spends stores = (
      budget-with_secret secret budget now ctx.auth ctx spends,
      limits-with_secret secret limits now r1 r2 r3 ctx.auth ctx stores,
    )
