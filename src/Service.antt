-- ===== src/Service.antt =====
-- The services over the store (crates/looper-service).
pub mod Outcome
pub mod Answers
pub mod Repo
pub mod Library
pub mod AdmitWork
pub mod Loops
pub mod Projects
