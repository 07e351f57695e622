-- ===== src/Git.antt =====
-- The git gateway of the daemon (crates/looper-git).
pub mod Safety
