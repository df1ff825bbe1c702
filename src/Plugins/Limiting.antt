-- ===== src/Plugins/Limiting.antt =====
-- crates/himadri-plugins/src/rate_limit.rs, `RateLimitPlugin`: whether its checks answer.
use himadri.Common.{
  ℕ, ◌<◌, ◌≡◌, inl, inr, refl, ap, sym, ◌∙◌, String, Bool, true, false, Option, none, some,
  Bool-cases, lookup, insert, text-cases, lookup-insert_self, lookup-insert_other, unwrap_or, arith,
}
use mathlib.Core.Path.{subst}
use mathlib.Core.Option.{some-injective}
use himadri.Plugins.Manager.{PluginError}
use himadri.Plugins.Context.{PluginContext}
use himadri.Plugins.Registry.{get_or_create, register_new}
use himadri.Plugins.RateLimit.{
  RateLimitPlugin, RateLimitConfig, Registry, Reading, make_store, new_plugin, default_max_keys,
  rejection, check_scope, then_if, check_scopes, check_global, execute,
}
use himadri.Window.Store.{RateLimiterStore, Request, new_store}
use himadri.Window.Capacity.{IsCapped, store_allow-IsCapped, empty_maps-IsCapped}

abbrev Registered : String → Registry → Type 0
Registered id stores = (store : RateLimiterStore) × (lookup id stores ≡ some store)

abbrev Known : Option String → Registry → Type 0
Known none stores = Unit
Known (some id) stores = Registered id stores

-- Every store has its shards and a cap on its keys.
abbrev AllCapped : Registry → Type 0
AllCapped stores = (id : String) (s : RateLimiterStore) → lookup id stores ≡ some s → IsCapped s

-- The plugin's stores are registered, and all stores are sound.
unfoldable pub IsReady : RateLimitPlugin → Registry → Type 0
IsReady p stores =
    AllCapped stores
    × Known p.key_store stores
    × Known p.user_store stores
    × Known p.ip_store stores

-- What is registered stays registered.
abbrev Keeps : Registry → Registry → Type 0
Keeps stores after = (id : String) → Registered id stores → Registered id after

Known-Keeps : (o : Option String) (a b : Registry) → Keeps a b → Known o a → Known o b
Known-Keeps none a b keeps k = tt
Known-Keeps (some id) a b keeps k = keeps id k

insert-AllCapped :
    (id : String) (s : RateLimiterStore) (stores : Registry)
    → IsCapped s
    → AllCapped stores
    → AllCapped (insert id s stores)
insert-AllCapped id s stores good all x y e = elim (text-cases id x) [
  | inl p ↦
      subst IsCapped
        (some-injective s y
          (sym (lookup-insert_self id s stores) ∙ ap (λ z. lookup z (insert id s stores)) p ∙ e))
        good
  | inr o ↦ all x y (sym (lookup-insert_other id x s stores o) ∙ e)
]

insert-Keeps :
    (id : String) (s : RateLimiterStore) (stores : Registry) → Keeps stores (insert id s stores)
insert-Keeps id s stores x (y, e) = elim (text-cases id x) [
  | inl p ↦ (s, ap (λ z. lookup z (insert id s stores)) (sym p) ∙ lookup-insert_self id s stores)
  | inr o ↦ (y, lookup-insert_other id x s stores o ∙ e)
]

abbrev Ends : RateLimitPlugin → Option (Registry × Option PluginError) → Type 0
Ends p answer =
    (end : Registry) × (denial : Option PluginError) × (answer ≡ some (end, denial)) × IsReady p end

module _ (hash : String → ℕ) where
  check_scope-total :
      (o key : Option String) (reading : Reading) (stores : Registry)
      → AllCapped stores
      → Known o stores
      → (after : Registry) × (allowed : Bool) × (check_scope hash o key reading stores
          ≡ some (after, allowed))
        × AllCapped after
        × Keeps stores after
  unfolding check_scope
  check_scope-total none key reading stores all k = (stores, true, refl, all, λ id r. r)
  check_scope-total (some id) none reading stores all k = (stores, true, refl, all, λ x r. r)
  check_scope-total (some id) (some key) reading stores all (store, found) =
      let request : Request = record { key = key; now = reading.now; random = reading.random } in
      let (s, allowed, run, good, same) =
        store_allow-IsCapped hash store request (all id store found) in
      (
        insert id s stores,
        allowed,
        rw (found, run) refl,
        insert-AllCapped id s stores good all,
        insert-Keeps id s stores,
      )

  then_if-total :
      (p : RateLimitPlugin) (reason : String) (after : Registry) (allowed : Bool)
      → (later : Registry → Option (Registry × Option PluginError)) → IsReady p after
      → Ends p (later after)
      → Ends p (then_if hash reason (some (after, allowed)) later)
  then_if-total p reason after false later ready h = (after, some (rejection reason), refl, ready)
  then_if-total p reason after true later ready h = h

  -- One check, and those after it.
  step-total :
      (p : RateLimitPlugin) (reason : String) (o key : Option String) (reading : Reading)
      → (stores : Registry) (later : Registry → Option (Registry × Option PluginError))
      → IsReady p stores
      → Known o stores
      → ((after : Registry) → IsReady p after → Ends p (later after))
      → Ends p (then_if hash reason (check_scope hash o key reading stores) later)
  unfolding IsReady
  step-total p reason o key reading stores later ready known h =
      let (after, allowed, run, all, keeps) =
        check_scope-total o key reading stores ready.0 known in
      let next : IsReady p after = (
        all,
        Known-Keeps p.key_store stores after keeps ready.1,
        Known-Keeps p.user_store stores after keeps ready.2,
        Known-Keeps p.ip_store stores after keeps ready.3,
      ) in
      rw run (then_if-total p reason after allowed later next (h after next))

  module _ {F J : Type 0} (as_str : J → Option String) (is_ip : String → Bool) where
    check_scopes-total :
        (p : RateLimitPlugin) (r1 r2 r3 : Reading) (ctx : PluginContext F J) (stores : Registry)
        → IsReady p stores
        → Ends p (check_scopes hash as_str is_ip p r1 r2 r3 ctx stores)
    unfolding check_scopes IsReady
    check_scopes-total p r1 r2 r3 ctx stores ready =
        step-total p _ p.key_store _ r1 stores _ ready ready.1 (λ s1 ready1.
          step-total p _ p.user_store _ r2 s1 _ ready1 ready1.2 (λ s2 ready2.
            step-total p _ p.ip_store _ r3 s2 _ ready2 ready2.3
              (λ s3 ready3. (s3, none, refl, ready3))))

    -- A plugin whose stores are registered and sound decides every request, without a panic, and its
    -- stores stay registered and sound.
    pub execute-IsReady :
        (p : RateLimitPlugin) (now : ℕ) (r1 r2 r3 : Reading) (ctx : PluginContext F J)
        → (stores : Registry) → IsReady p stores
        → (end : Registry) × (denial : Option PluginError) × ((execute hash as_str is_ip p now r1 r2
              r3 ctx stores).1
            ≡ some (end, denial))
          × IsReady p end
    unfolding execute
    execute-IsReady p now r1 r2 r3 ctx stores ready =
        elim (Bool-cases (check_global now p.global_limiter).1) [
          | inl b ↦ rw b (check_scopes-total p r1 r2 r3 ctx stores ready)
          | inr b ↦ rw b (stores, some (rejection "rate limit exceeded"), refl, ready)
        ]

get_or_create-AllCapped :
    (id : String) (s : RateLimiterStore) (stores : Registry) (o : Option RateLimiterStore)
    → lookup id stores ≡ o
    → IsCapped s
    → AllCapped stores
    → AllCapped (register_new id s stores o)
      × Keeps stores (register_new id s stores o)
      × Registered id (register_new id s stores o)
get_or_create-AllCapped id s stores (some t) e good all = (all, λ x r. r, (t, e))
get_or_create-AllCapped id s stores none e good all = (
  insert-AllCapped id s stores good all,
  insert-Keeps id s stores,
  (s, lookup-insert_self id s stores),
)

new_store-IsCapped :
    (rate window max_keys : ℕ) → 0 < max_keys → IsCapped (new_store rate window max_keys 64)
unfolding new_store
new_store-IsCapped rate window max_keys h =
    let (all_shards, within) = empty_maps-IsCapped max_keys 64 in
    record { some_shard = omega arith; all_shards = all_shards; cap = h; within = within }

make_store-AllCapped :
    (scope store_id : String) (max_keys : ℕ) (rpm : Option ℕ) (stores : Registry)
    → 0 < max_keys
    → AllCapped stores
    → AllCapped (make_store scope store_id max_keys rpm stores).0
      × Keeps stores (make_store scope store_id max_keys rpm stores).0
      × Known
          (make_store scope store_id max_keys rpm stores).1
          (make_store scope store_id max_keys rpm stores).0
unfolding make_store get_or_create
make_store-AllCapped scope store_id max_keys none stores h all = (all, λ x r. r, tt)
make_store-AllCapped scope store_id max_keys (some rpm) stores h all =
    get_or_create-AllCapped _ (new_store rpm 60000000 max_keys 64) stores _ refl
      (new_store-IsCapped rpm 60000000 max_keys h) all

-- A plugin that is built with a positive cap on the keys finds its stores registered and sound, if the
-- stores of the registry are sound.
pub new_plugin-IsReady :
    (config : RateLimitConfig) (stores : Registry)
    → 0 < unwrap_or config.max_keys default_max_keys
    → AllCapped stores
    → IsReady (new_plugin config stores).1 (new_plugin config stores).0
unfolding new_plugin IsReady
new_plugin-IsReady config stores h all =
    let max_keys = unwrap_or config.max_keys default_max_keys in
    let store_id = unwrap_or config.store_id "default" in
    let keyed = make_store "key" store_id max_keys config.key_rpm stores in
    let users = make_store "user" store_id max_keys config.user_rpm keyed.0 in
    let ips = make_store "ip" store_id max_keys config.ip_rpm users.0 in
    let (all1, k1, r1) = make_store-AllCapped "key" store_id max_keys config.key_rpm stores h all in
    let (all2, k2, r2) =
      make_store-AllCapped "user" store_id max_keys config.user_rpm keyed.0 h all1 in
    let (all3, k3, r3) = make_store-AllCapped "ip" store_id max_keys config.ip_rpm users.0 h all2 in
    (
      all3,
      Known-Keeps keyed.1 users.0 ips.0 k3 (Known-Keeps keyed.1 keyed.0 users.0 k2 r1),
      Known-Keeps users.1 users.0 ips.0 k3 r2,
      r3,
    )
