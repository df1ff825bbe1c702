-- ===== src/Strategy.antt =====
-- crates/himadri/src/strategy.rs and src/latency_store.rs: in which order targets are tried.
pub mod Latency
pub mod Select
pub mod Dedup
pub mod Orders
pub mod Coverage
pub mod Ranking
