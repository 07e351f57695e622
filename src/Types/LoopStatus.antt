-- ===== src/Types/LoopStatus.antt =====
-- crates/looper-types/src/loop_status.rs: the life of a loop.
pub mod Graph
use looper_rust.Prelude.{String, ◌==◌, Bool, true, false, not, ◌&&◌, ◌||◌, if◌then◌else◌}

pub data LoopStatus : Type 0 where
  idle queued running paused waiting stopped terminated completed failed interrupted : LoopStatus

-- the constructors of `DomainError` that this file of the source raises
pub data StatusError : Type 0 where
  invalid_transition : LoopStatus → LoopStatus → StatusError
  unknown_status : String → StatusError

pub data Outcome : Type 0 where
  ok : LoopStatus → Outcome
  err : StatusError → Outcome

unfoldable pub is_terminal : LoopStatus → Bool
is_terminal completed = true
is_terminal failed = true
is_terminal terminated = true
is_terminal _ = false

unfoldable pub is_active_running : LoopStatus → Bool
is_active_running running = true
is_active_running paused = true
is_active_running waiting = true
is_active_running _ = false

unfoldable pub is_inactive : LoopStatus → Bool
unfolding is_terminal is_active_running
is_inactive s = not (is_terminal s) && not (is_active_running s)

unfoldable pub can_transition_to : LoopStatus → LoopStatus → Bool
can_transition_to idle queued = true
can_transition_to queued running = true
can_transition_to queued stopped = true
can_transition_to queued interrupted = true
can_transition_to running paused = true
can_transition_to running waiting = true
can_transition_to running stopped = true
can_transition_to running terminated = true
can_transition_to running completed = true
can_transition_to running failed = true
can_transition_to running interrupted = true
can_transition_to paused queued = true
can_transition_to paused running = true
can_transition_to paused stopped = true
can_transition_to paused terminated = true
can_transition_to paused interrupted = true
can_transition_to waiting running = true
can_transition_to waiting stopped = true
can_transition_to waiting interrupted = true
can_transition_to stopped queued = true
can_transition_to failed queued = true
can_transition_to interrupted queued = true
can_transition_to _ _ = false

unfoldable pub transition : LoopStatus → LoopStatus → Outcome
unfolding can_transition_to
transition from to = if can_transition_to from to then ok to else err (invalid_transition from to)

unfoldable pub as_str : LoopStatus → String
as_str idle = "idle"
as_str queued = "queued"
as_str running = "running"
as_str paused = "paused"
as_str waiting = "waiting"
as_str stopped = "stopped"
as_str terminated = "terminated"
as_str completed = "completed"
as_str failed = "failed"
as_str interrupted = "interrupted"

unfoldable pub from_str : String → Outcome
from_str s =
    if s == "idle"
    then ok idle
    else if s == "queued"
    then ok queued
    else if s == "running"
    then ok running
    else if s == "paused"
    then ok paused
    else if s == "waiting"
    then ok waiting
    else if s == "stopped"
    then ok stopped
    else if s == "terminated"
    then ok terminated
    else if s == "completed"
    then ok completed
    else if s == "failed"
    then ok failed
    else if s == "interrupted"
    then ok interrupted
    else err (unknown_status s)
