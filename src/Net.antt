-- ===== src/Net.antt =====
-- The network of nodes (crates/looper-net).
pub mod Policy
