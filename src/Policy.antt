-- ===== src/Policy.antt =====
-- crates/himadri-core/src/scope.rs and crates/himadri/src/gateway/policy.rs: the scopes that apply
-- to a principal, and the checks before a request.
pub mod Config
pub mod Checks
pub mod Guardrails
pub mod Narrowing
pub mod RateLimits
