-- ===== src/Route/Failover.antt =====
-- crates/himadri/src/gateway/route.rs, `with_failover`, and gateway/mod.rs, `get_api_key`. The call
-- of a provider's client, the clock and the environment are parameters; each is asked with the
-- index of the attempt.
use Prim.Native.String.{◌++◌}
use himadri.Common.{
  ℕ, suc, String, Bool, true, false, List, [], ◌∷◌, Option, none, some, if◌then◌else◌, lookup,
  insert, unwrap_or,
}
use himadri.Types.{Target}
use himadri.Errors.{
  GatewayError, service_unavailable, ProviderError, rate_limited, provider_retryable,
}
use himadri.Breaker.{BreakerInner, default_config, new, allow, record_success, record_failure}
use himadri.Policy.Checks.{Result, ok, err}
use himadri.Strategy.Latency.{LatencyStore, record_latency}
use himadri.Route.Targets.{routing_key}

pub data AttemptError : Type 0 where
  no_targets : AttemptError
  circuit_open : String → AttemptError
  provider_not_found : String → AttemptError
  api_key : GatewayError → AttemptError
  provider : ProviderError → AttemptError

-- `Result<T, E>`
pub data Outcome (T E : Type 0) : Type 0 where
  done : T → Outcome T E
  failed : E → Outcome T E

-- What an attempt learns from outside: the clock when the breaker is asked and when a failure is
-- recorded, and the latency in milliseconds.
pub record Clock : Type 0 where
  pub asked : ℕ
  pub failed_at : ℕ
  pub latency_ms : ℕ

-- The shared maps that the failover writes; there is a latency store under `least_latency` only, and none
-- for a stream, whose latency is not recorded. One request runs at a time.
pub record Routing : Type 0 where
  pub circuit_breakers : List (String × BreakerInner)
  pub latency_store : Option LatencyStore

unfoldable pub breaker_of : String → Routing → BreakerInner
breaker_of key r = unwrap_or (lookup key r.circuit_breakers) new

unfoldable pub set_breaker : String → BreakerInner → Routing → Routing
set_breaker key b r = record r { circuit_breakers = insert key b r.circuit_breakers }

-- The breaker's bookkeeping for the outcome of an attempt.
unfoldable pub settle : {T : Type 0} → ℕ → Outcome T ProviderError → BreakerInner → BreakerInner
settle now (done v) b = record_success default_config b
settle now (failed (rate_limited _)) b = b
settle now (failed e) b = if provider_retryable e then record_failure default_config now b else b

unfoldable pub note_latency : String → ℕ → Routing → Routing
note_latency name ms r = elim r.latency_store [
  | none ↦ r
  | some store ↦ record r { latency_store = some (record_latency name ms store) }
]

-- An attempt's verdict: go on to the next target, if there is one, or end.
pub data Verdict (T : Type 0) : Type 0 where
  skip : AttemptError → Verdict T
  stop : Outcome T AttemptError → Verdict T

unfoldable pub judge : {T : Type 0} → Outcome T ProviderError → Verdict T
judge (done v) = stop (done v)
judge (failed e) = if provider_retryable e then skip (provider e) else stop (failed (provider e))

module _ {F : Type 0} where
  unfoldable pub get_api_key :
      (String → Option String) → List (String × String) → Target F → Result String
  unfolding routing_key
  get_api_key env provider_keys target = elim target.api_key_env [
    | some env_var ↦ elim (env env_var) [
      | none ↦ err (service_unavailable ("Missing API key environment variable: " ++ env_var))
      | some key ↦ ok key
    ]
    | none ↦ ok (unwrap_or (lookup (routing_key target) provider_keys) "")
  ]

-- One attempt at a target: the shared maps after it, its verdict, and the latency that it measured.
pub record Attempted (T : Type 0) : Type 0 where
  pub routing : Routing
  pub verdict : Verdict T
  pub latency : Option ℕ

abbrev attempted : {T : Type 0} → Routing → Verdict T → Option ℕ → Attempted T
attempted r v l = record { routing = r; verdict = v; latency = l }

-- A run of the loop: the shared maps after it, the target that was used last, the outcome, and the
-- latency that was measured last.
abbrev pub Run : Type 0 → Type 0 → Type 0
Run F T = Routing × (Target F × (Outcome T AttemptError × ℕ))

-- After an attempt: the end of the loop, or what comes next.
abbrev pub follow :
    {F T : Type 0} → Verdict T → Routing → Target F → ℕ → (AttemptError → Run F T) → Run F T
follow (skip e) r t latency next = next e
follow (stop o) r t latency next = (r, (t, (o, latency)))

module _ {F C T : Type 0} (providers : List (String × C)) (key_of : Target F → Result String)
    (op : ℕ → C → String → Outcome T ProviderError) (clock : ℕ → Clock) where
  -- The call of the client, once everything before it has succeeded; `b` is the breaker after `allow`.
  unfoldable pub execute : ℕ → Target F → C → String → Routing → BreakerInner → Attempted T
  unfolding set_breaker settle note_latency judge
  execute i t client secret r b =
      let result = op i client secret in
      let settled = set_breaker (routing_key t) (settle (clock i).failed_at result b) r in
      attempted (note_latency t.provider (clock i).latency_ms settled) (judge result)
        (some (clock i).latency_ms)

  -- What follows the breaker's answer: the client of the endpoint, its key, and the call. `r` and `b`
  -- are the shared maps and the breaker after `allow`.
  unfoldable pub proceed :
      ℕ → Target F → Routing → BreakerInner → Bool → Option C → Result String → Attempted T
  unfolding execute
  proceed i t r b false client secret = attempted r (skip (circuit_open t.provider)) none
  proceed i t r b true none secret = attempted r (skip (provider_not_found t.provider)) none
  proceed i t r b true (some client) (err e) = attempted r (skip (api_key e)) none
  proceed i t r b true (some client) (ok secret) = execute i t client secret r b

  unfoldable pub attempt : ℕ → Target F → Routing → Attempted T
  unfolding proceed breaker_of
  attempt i t r =
      let asked = allow default_config (clock i).asked (breaker_of (routing_key t) r) in
      proceed i t (set_breaker (routing_key t) asked.0 r) asked.0 asked.1
        (lookup (routing_key t) providers) (key_of t)

  -- The loop from the target with the index `i` on; `latency` is the last one measured.
  unfoldable pub failover_from : ℕ → ℕ → Target F → List (Target F) → Routing → Run F T
  unfolding attempt
  failover_from i latency t [] r =
      let a = attempt i t r in
      let measured = unwrap_or a.latency latency in
      follow a.verdict a.routing t measured (λ e. (a.routing, (t, (failed e, measured))))
  failover_from i latency t (u ∷ us) r =
      let a = attempt i t r in
      let measured = unwrap_or a.latency latency in
      let later = failover_from (suc i) measured u us a.routing in
      follow a.verdict a.routing t measured (λ e. later)

  unfoldable pub with_failover : List (Target F) → Routing → Option (Run F T)
  unfolding failover_from
  with_failover [] r = none
  with_failover (t ∷ ts) r = some (failover_from 0 0 t ts r)
