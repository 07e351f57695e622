-- ===== src/Scheduler.antt =====
-- The scheduler of the daemon (crates/looper-scheduler).
pub mod Claim
pub mod Tick
pub mod Reconcile
pub mod Recovery
pub mod Failure
