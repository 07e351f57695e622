-- ===== src/Types/RunStatus.antt =====
-- crates/looper-types/src/run_status.rs: the life of one run.
pub mod Graph
use looper_rust.Prelude.{String, ◌==◌, Bool, true, false, if◌then◌else◌}

pub data RunStatus : Type 0 where
  queued running success failed cancelled interrupted parse_failed : RunStatus

-- the constructors of `DomainError` that this file of the source raises
pub data StatusError : Type 0 where
  invalid_transition : RunStatus → RunStatus → StatusError
  unknown_status : String → StatusError

pub data Outcome : Type 0 where
  ok : RunStatus → Outcome
  err : StatusError → Outcome

unfoldable pub is_terminal : RunStatus → Bool
is_terminal queued = false
is_terminal running = false
is_terminal _ = true

unfoldable pub can_transition_to : RunStatus → RunStatus → Bool
can_transition_to queued running = true
can_transition_to queued cancelled = true
can_transition_to queued interrupted = true
can_transition_to running success = true
can_transition_to running failed = true
can_transition_to running cancelled = true
can_transition_to running interrupted = true
can_transition_to running parse_failed = true
can_transition_to _ _ = false

unfoldable pub transition : RunStatus → RunStatus → Outcome
unfolding can_transition_to
transition from to = if can_transition_to from to then ok to else err (invalid_transition from to)

unfoldable pub as_str : RunStatus → String
as_str queued = "queued"
as_str running = "running"
as_str success = "success"
as_str failed = "failed"
as_str cancelled = "cancelled"
as_str interrupted = "interrupted"
as_str parse_failed = "parse_failed"

unfoldable pub from_str : String → Outcome
from_str s =
    if s == "queued"
    then ok queued
    else if s == "running"
    then ok running
    else if s == "success"
    then ok success
    else if s == "failed"
    then ok failed
    else if s == "cancelled"
    then ok cancelled
    else if s == "interrupted"
    then ok interrupted
    else if s == "parse_failed"
    then ok parse_failed
    else err (unknown_status s)
