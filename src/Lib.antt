-- ===== src/Lib.antt =====
-- A model of the himadri gateway's request path, with the theorems that make it correct.
--
-- The gateway takes a chat request of an authenticated caller, checks it against the rate limits,
-- the token caps, the rules of the caller's organisation and team and its roles, orders the upstream
-- endpoints by a strategy, and tries them in turn, each guarded by a circuit breaker. Before that, the
-- authentication finds the caller of the request: by an API key of the key store, the master key or a
-- JWT. Plugins limit the rate and the spending of a caller, an answer that is streamed is decoded
-- from server-sent events, and a log keeps the latest requests.
--
-- Files and the code they are about:
-- - Breaker: crates/himadri-circuitbreaker/src/lib.rs, `CircuitBreaker`. A mutex guards its state, so
--   every operation is a function on `BreakerInner`; `step` and `run` are sequences of calls.
-- - Limiter/Bucket, Limiter/Interleaving: crates/himadri-ratelimit/src/token_bucket.rs,
--   `TokenBucket`, as one caller sees it and as threads that interleave atomic operations.
-- - Limiter/Store: `ShardedRateLimiter` of the same file, and `RateLimiter` of src/lib.rs.
-- - Window/Counter: crates/himadri-plugins/src/rate_limit.rs, `FixedWindowCounter`.
-- - Window/Store: `RateLimiterStore` of the same file, with the eviction of keys.
-- - Rbac/Pattern, Rbac/Access: crates/himadri-core/src/rbac.rs, the glob matcher and the checks.
-- - Policy/Config: the fields of crates/himadri-core/src/config.rs that the checks read, and
--   `Config::scopes` of src/scope.rs.
-- - Policy/Checks, Policy/RateLimits: crates/himadri/src/gateway/policy.rs.
-- - Strategy/Select, Strategy/Latency: crates/himadri/src/strategy.rs, `select_ordered` under each
--   strategy, and crates/himadri/src/latency_store.rs.
-- - Route/Targets, Route/Failover: `select_targets` and `with_failover` of
--   crates/himadri/src/gateway/route.rs, with what they use of gateway/policy.rs and gateway/mod.rs.
-- - Plugins/Manager: crates/himadri-plugin/src/manager.rs and traits.rs.
-- - Route/Prologue: `prepare_request` and `map_plugin_error` of gateway/route.rs.
-- - Route/Streaming: `GuardrailStream` and `StreamUsageRecorder` of gateway/stream.rs, a stream as the
--   list of the answers to its polls.
-- - Plugins/Context, Plugins/Registry: crates/himadri-plugin/src/context.rs and registry.rs.
-- - Plugins/Filters: crates/himadri-plugins/src/max_token.rs and word_filter.rs.
-- - Plugins/Spend, Plugins/Budget: crates/himadri-plugins/src/budget.rs, `SpendStore` and
--   `BudgetPlugin`.
-- - Plugins/RateLimit: `RateLimitPlugin` of crates/himadri-plugins/src/rate_limit.rs.
-- - ApiKeys: the in-memory `ApiKeyStore` of crates/himadri-admin/src/store.rs.
-- - Auth, Auth/Middleware: crates/himadri/src/combined_auth.rs, and the key check of
--   crates/himadri-admin/src/middleware.rs.
-- - NetGuard: crates/himadri-core/src/net_guard.rs, the guard of the providers' URLs.
-- - Roles: crates/himadri-core/src/roles.rs.
-- - RequestLog: the in-memory store of crates/himadri-admin/src/request_log.rs.
-- - UsageStore: the in-memory `UsageStore` of crates/himadri-admin/src/usage_store.rs, without the
--   dashboard.
-- - Sse: crates/himadri-provider/src/sse.rs, `sse_events`; a stream is the list of its chunks.
-- - Types, Errors: crates/himadri-core/src/types.rs and error.rs, crates/himadri-provider/src/error.rs.
-- - Common: machine words, lists, association lists for hash maps, options, Boolean tests.
-- - Tests: concrete data and runs.
--
-- Conventions. Numbers are natural numbers; a `u64` that wraps or saturates has that written out. A
-- clock reading is an argument, one for each time that the code reads the clock. No function runs on
-- fuel: every loop is structural recursion over a list, and `load_loop` counts down the number of
-- remaining targets, which each round lowers by one. A check of
-- a limiter or a store answers `none` where the code would panic.
--
-- Parameters: the hash of a key, Unicode lowercasing, the wording of a denial, the numbers that the
-- random generator draws, a compiled regular expression, `f64` with its operations, the environment,
-- the plugins that the manager runs, the calls of upstream clients, the decoding of UTF-8, the parsing
-- of an IP address, SHA-256, the validators of JWTs and the reading of a JSON text. Of the
-- decoding, the theorems on streams assume that no bytes are no text and that a chunk which ends between two
-- characters is decoded the same whatever follows. No other theorem assumes anything of a parameter; what is
-- drawn at random is new where a theorem says so.
--
-- Not modelled: HTTP, JSON, databases, cryptography, metrics and logs, which are I/O; the detection of
-- personal data, which is made of a third party's regular expressions; the response cache, the
-- administration of configurations, and where accounts are written to. Locks held for a whole operation are
-- taken as atomic; only the token bucket is modelled at the grain of its atomic operations. A failover
-- is modelled as one request that runs with no other meanwhile, and a validation of a key as well.
pub mod Common
pub mod Sse
pub mod UsageStore
pub mod RequestLog
pub mod Auth
pub mod ApiKeys
pub mod Roles
pub mod NetGuard
pub mod Types
pub mod Errors
pub mod Breaker
pub mod Limiter
pub mod Window
pub mod Rbac
pub mod Policy
pub mod Strategy
pub mod Plugins
pub mod Route
pub mod Tests
