-- ===== src/Plugins/RateLimit.antt =====
-- crates/himadri-plugins/src/rate_limit.rs, `RateLimitPlugin`: the global counter and the stores by key,
-- by user and by address. The hash, the test of an address and `as_str` of a JSON value are parameters;
-- each check takes a clock reading and a random number. `none` is a panic.
use Prim.Native.String.{◌++◌}
use text.Mathlib.Text.{◌==◌}
use himadri.Common.{
  ℕ, ◌*◌, String, Bool, true, false, Option, none, some, if◌then◌else◌, lookup, insert, unwrap_or,
  or_else, ◌>>=◌,
}
use himadri.Plugins.Manager.{PluginError, rejected, rate_limited}
use himadri.Plugins.Context.{PluginContext, get_metadata, auth_key_id, auth_user_id}
use himadri.Plugins.Registry.{StoreRegistry, get_or_create, with_mut}
use himadri.Window.Counter.{FixedWindowCounter, new, allow}
use himadri.Window.Store.{RateLimiterStore, new_store, store_allow, reset_all, reset_key, get_count}

pub record RateLimitPlugin : Type 0 where
  pub global_limiter : Option FixedWindowCounter
  pub key_store : Option String
  pub user_store : Option String
  pub ip_store : Option String

pub record RateLimitConfig : Type 0 where
  pub store_id : Option String
  pub requests_per_second : Option ℕ
  pub key_rpm : Option ℕ
  pub user_rpm : Option ℕ
  pub ip_rpm : Option ℕ
  pub max_keys : Option ℕ

abbrev pub Registry : Type 0
Registry = StoreRegistry RateLimiterStore

abbrev pub default_max_keys : ℕ
default_max_keys = 100000

-- A store for one scope, with windows of a minute, if its limit is configured.
unfoldable pub make_store :
    (scope store_id : String) → (max_keys : ℕ) → Option ℕ → Registry → Registry × Option String
make_store scope store_id max_keys none stores = (stores, none)
make_store scope store_id max_keys (some rpm) stores =
    let id = scope ++ ("-" ++ store_id) in
    (get_or_create id (new_store rpm (60 * 1000000) max_keys 64) stores, some id)

abbrev global_counter : Option ℕ → Option FixedWindowCounter
global_counter none = none
global_counter (some rps) = some (new rps 1000000)

unfoldable pub new_plugin : RateLimitConfig → Registry → Registry × RateLimitPlugin
unfolding make_store
new_plugin config stores =
    let max_keys = unwrap_or config.max_keys default_max_keys in
    let store_id = unwrap_or config.store_id "default" in
    let keyed = make_store "key" store_id max_keys config.key_rpm stores in
    let users = make_store "user" store_id max_keys config.user_rpm keyed.0 in
    let ips = make_store "ip" store_id max_keys config.ip_rpm users.0 in
    (
      ips.0,
      record {
        global_limiter = global_counter config.requests_per_second;
        key_store = keyed.1;
        user_store = users.1;
        ip_store = ips.1;
      },
    )

unfoldable pub rejection : String → PluginError
rejection reason = rejected "rate-limit" reason (rate_limited 60)

-- What a check reads of the world.
pub record Reading : Type 0 where
  pub now : ℕ
  pub random : ℕ

abbrev pub non_empty : Option String → Option String
non_empty none = none
non_empty (some s) = if s == "" then none else some s

module _ {F J : Type 0} (as_str : J → Option String) where
  unfoldable pub get_api_key : PluginContext F J → Option String
  get_api_key ctx =
      or_else (non_empty (get_metadata "api_key" ctx >>= as_str))
        (or_else (auth_key_id ctx) (auth_user_id ctx))

  unfoldable pub get_user_id : PluginContext F J → Option String
  get_user_id ctx = or_else (get_metadata "user_id" ctx >>= as_str) (auth_key_id ctx)

-- The global counter after the check, and whether it grants.
abbrev pub check_global : (now : ℕ) → Option FixedWindowCounter → Option FixedWindowCounter × Bool
check_global now none = (none, true)
check_global now (some c) = let asked = allow now c in (some asked.0, asked.1)

abbrev pub valid_ip : (is_ip : String → Bool) → Option String → Option String
valid_ip is_ip none = none
valid_ip is_ip (some ip) = if is_ip ip then some ip else none

module _ (hash : String → ℕ) where
  -- One scope: it grants if it is not configured or the request has no identity in it.
  unfoldable pub check_scope :
      Option String → Option String → Reading → Registry → Option (Registry × Bool)
  check_scope none key reading stores = some (stores, true)
  check_scope (some id) none reading stores = some (stores, true)
  check_scope (some id) (some key) reading stores = do
    store ← lookup id stores
    (after, allowed) ←
        store_allow hash store (record { key = key; now = reading.now; random = reading.random })
    some (insert id after stores, allowed)

  -- After a check: the rejection, or the checks that are left.
  abbrev pub then_if :
      String
      → Option (Registry × Bool)
      → (Registry → Option (Registry × Option PluginError))
      → Option (Registry × Option PluginError)
  then_if reason none later = none
  then_if reason (some (stores, false)) later = some (stores, some (rejection reason))
  then_if reason (some (stores, true)) later = later stores

  module _ {F J : Type 0} (as_str : J → Option String) (is_ip : String → Bool) where
    -- The checks by key, by user and by address, in turn.
    unfoldable pub check_scopes :
        RateLimitPlugin
        → (key_reading user_reading ip_reading : Reading) → PluginContext F J
        → Registry
        → Option (Registry × Option PluginError)
    unfolding check_scope get_api_key get_user_id rejection
    check_scopes plugin key_reading user_reading ip_reading ctx stores =
        then_if "per-key rate limit exceeded"
          (check_scope plugin.key_store (get_api_key as_str ctx) key_reading stores)
          (λ keyed.
            then_if "per-user rate limit exceeded"
              (check_scope plugin.user_store (get_user_id as_str ctx) user_reading keyed)
              (λ users.
                then_if "per-IP rate limit exceeded"
                  (check_scope plugin.ip_store (valid_ip is_ip ctx.remote_ip) ip_reading users)
                  (λ ips. some (ips, none))))

    -- The global counter after the request, the stores and the rejection, if there is one.
    unfoldable pub execute :
        RateLimitPlugin
        → (now : ℕ) → (key_reading user_reading ip_reading : Reading) → PluginContext F J
        → Registry
        → Option FixedWindowCounter × Option (Registry × Option PluginError)
    unfolding check_scopes rejection
    execute plugin now key_reading user_reading ip_reading ctx stores =
        let asked = check_global now plugin.global_limiter in
        (
          asked.0,
          if asked.1
              then check_scopes plugin key_reading user_reading ip_reading ctx stores
              else some (stores, some (rejection "rate limit exceeded")),
        )

-- The functions that the admin API calls.
unfoldable pub reset_store : String → Registry → Registry
reset_store store_id stores = with_mut store_id reset_all stores

module _ (hash : String → ℕ) where
  unfoldable pub reset_store_key : (store_id key : String) (now : ℕ) → Registry → Option Registry
  reset_store_key store_id key now stores = elim (lookup store_id stores) [
    | none ↦ some stores
    | some store ↦ do after ← reset_key hash store key now; some (insert store_id after stores)
  ]

  unfoldable pub get_request_count : (store_id key : String) (now : ℕ) → Registry → Option ℕ
  get_request_count store_id key now stores = elim (lookup store_id stores) [
    | none ↦ some 0
    | some store ↦ get_count hash store key now
  ]
