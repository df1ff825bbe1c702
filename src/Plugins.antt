-- ===== src/Plugins.antt =====
-- crates/himadri-plugin: the plugin manager.
pub mod Manager
pub mod Stages
pub mod Context
pub mod Registry
pub mod Filters
pub mod Spend
pub mod Budget
pub mod Spending
pub mod Oldest
pub mod Eviction
pub mod RateLimit
pub mod Limiting
pub mod Secrets
