-- ===== src/Rbac.antt =====
-- crates/himadri-core/src/rbac.rs: role-based access to models and providers.
pub mod Pattern
pub mod Glob
pub mod Greedy
pub mod Access
pub mod Decision
