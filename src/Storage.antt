-- ===== src/Storage.antt =====
-- The SQLite store of the daemon (crates/looper-storage).
pub mod Schema
pub mod Sql
pub mod Queue
pub mod Insert
pub mod Update
pub mod Locks
pub mod WellFormed
pub mod Cancelled
pub mod Parents
pub mod Loops
pub mod Runs
pub mod Worktrees
pub mod Projects
pub mod Reads
pub mod Ops
