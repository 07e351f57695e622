-- ===== src/Tests.antt =====
-- The theorems at concrete inputs.
mod Samples
mod Queue
mod Leases
mod Claims
mod Statuses
mod Failures
mod Breakers
mod Graphs
mod Policies
mod Writes
mod Watch
mod Rounds
mod Recoveries
mod Projects
mod Services
mod Admissions
mod Cleanups
mod Ticks
mod Paths
