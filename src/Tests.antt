-- ===== src/Tests.antt =====
-- The development on concrete inputs: data, runs and instances of the theorems.
mod Breaker
mod Limiter
mod Window
mod Errors
mod Rbac
mod Policy
mod Strategy
mod Route
mod Plugins
mod Sse
mod RequestLog
mod Auth
mod Budget
mod ApiKeys
mod Roles
mod NetGuard
mod Streaming
mod UsageStore
