-- ===== src/Infra.antt =====
-- The infrastructure of the daemon (crates/looper-infra).
pub mod Breaker
pub mod WorktreeCleanup
