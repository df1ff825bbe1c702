-- ===== src/Limiter.antt =====
-- crates/himadri-ratelimit: token buckets, their sharded store and the gateway's rate limiter.
pub mod Bucket
pub mod Interleaving
pub mod Conservation
pub mod Store
pub mod Isolation
