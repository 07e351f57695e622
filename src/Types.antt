-- ===== src/Types.antt =====
-- The domain types and their state machines (crates/looper-types).
pub mod LoopStatus
pub mod RunStatus
pub mod Resume
pub mod Domain
pub mod LoopTarget
pub mod LoopType
