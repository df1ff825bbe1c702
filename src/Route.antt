-- ===== src/Route.antt =====
-- crates/himadri/src/gateway/route.rs: the choice of the targets of a request, and the failover.
pub mod Targets
pub mod Failover
pub mod Permitted
pub mod Plan
pub mod Prologue
pub mod Streaming
pub mod Accounting
