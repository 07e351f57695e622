-- ===== src/Runner.antt =====
-- The runners (crates/looper-runner).
pub mod Depgraph
pub mod Completion
pub mod FixerHandoff
pub mod MergeWatch
