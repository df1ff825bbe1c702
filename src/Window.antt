-- ===== src/Window.antt =====
-- crates/himadri-plugins/src/rate_limit.rs: the fixed-window rate-limit plugin.
pub mod Counter
pub mod Bounds
pub mod Store
pub mod Capacity
