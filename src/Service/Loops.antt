-- ===== src/Service/Loops.antt =====
-- crates/looper-service/src/loop_service.rs: the life of the loops in the store. The time of a call and
-- the id that a new loop gets are arguments, and the text of a number is a parameter.
pub mod Calls
pub mod Steps
pub mod Sinks
pub mod Halted
pub mod Unique
pub mod Policy
use looper_rust.Prelude.{
  ℕ, String, ◌==◌, Bool, true, false, not, ◌&&◌, ◌||◌, Option, none, some, List, [], ◌∷◌, any, ℤ,
  if◌then◌else◌,
}
use looper_rust.Storage.Schema.{Timestamp, LoopRecord, ProjectRecord, Db, is_in}
use looper_rust.Storage.Sql.{sql_eq}
use looper_rust.Storage.Loops
use looper_rust.Storage.Projects
use looper_rust.Storage.Update.{cancel_by_loop}
use looper_rust.Types.LoopStatus
use looper_rust.Types.LoopStatus.{LoopStatus, queued, running, paused, terminated}
use looper_rust.Types.LoopType
use looper_rust.Types.LoopType.{LoopType, supports_target_type}
use looper_rust.Types.LoopTarget
use looper_rust.Types.LoopTarget.{LoopTarget, loop_target_key}
use looper_rust.Service.Outcome.{
  Service, loop_not_found, project_not_found, active_loop_conflict, cannot_target,
  invalid_loop_transition, cannot_pause, cannot_terminate, ◌>>=◌, ◌>>◌, return, guard, or_fail,
  reads, statement, writes, status_of,
}

pub record CreateInput : Type 0 where
  pub project_id : String
  pub type : LoopType
  pub target : LoopTarget
  pub status : LoopStatus
  pub config_json : Option String
  pub metadata_json : Option String

pub record TransitionInput : Type 0 where
  pub status : LoopStatus
  pub next_run_at : Option Timestamp
  pub last_run_at : Option Timestamp

pub record PauseInput : Type 0 where
  pub loop_id : String
  pub reason : Option String

pub record PauseResult : Type 0 where
  pub loop : LoopRecord
  pub cancelled_queue_items : ℕ

abbrev pub is_schedulable_status_str : String → Bool
is_schedulable_status_str s = is_in s ("idle" ∷ "queued" ∷ "running" ∷ "paused" ∷ [])

-- a schedulable loop of the same project, type and target
abbrev pub conflicts : String → String → String → LoopRecord → Bool
conflicts project_id type target_key l =
    l.project_id == project_id
    && (l.type == type && (sql_eq l.target_id target_key && is_schedulable_status_str l.status))

-- the derived equality of statuses, by the texts that tell them apart
abbrev pub is_status : LoopStatus → LoopStatus → Bool
is_status a b = LoopStatus.as_str a == LoopStatus.as_str b

abbrev pub new_loop : (ℤ → String) → CreateInput → Timestamp → String → ℤ → LoopRecord
new_loop to_string input now id seq = record {
  id = id;
  seq = seq;
  project_id = input.project_id;
  type = LoopType.as_str input.type;
  target_type = LoopTarget.as_str input.target.target_type;
  target_id = some (loop_target_key to_string input.target);
  repo = input.target.repo;
  pr_number = input.target.number;
  status = LoopStatus.as_str input.status;
  config_json = input.config_json;
  metadata_json = input.metadata_json;
  last_run_at = none;
  next_run_at = if is_status input.status running then some now else none;
  created_at = now;
  updated_at = now;
}

abbrev pub allocate_seq : Service ℤ
allocate_seq = statement (λ db. looper_rust.Storage.Schema.ok (Loops.allocate_seq db))

unfoldable pub create : (ℤ → String) → CreateInput → Timestamp → String → Service LoopRecord
create to_string input now id = do
  guard (supports_target_type input.type input.target.target_type)
      (cannot_target input.type input.target.target_type)
  projects ← reads (λ db. db.projects)
  _ ← or_fail (Projects.get_by_id input.project_id projects) (project_not_found input.project_id)
  all_loops ← reads Loops.list
  let target_key = loop_target_key to_string input.target
  let type = LoopType.as_str input.type
  guard
      (not (
        is_schedulable_status_str (LoopStatus.as_str input.status)
        && any (conflicts input.project_id type target_key) all_loops))
      (active_loop_conflict input.project_id type target_key)
  seq ← allocate_seq
  let l = new_loop to_string input now id seq
  writes (Loops.upsert l)
  return l

unfoldable pub get : String → Service (Option LoopRecord)
get id = reads (Loops.get_by_id id)

unfoldable pub get_by_seq : ℤ → Service (Option LoopRecord)
get_by_seq seq = reads (Loops.get_by_seq seq)

unfoldable pub list : Service (List LoopRecord)
list = reads Loops.list

-- `next_run_at` after a transition
abbrev pub next_run : TransitionInput → Timestamp → Option Timestamp → Option Timestamp
next_run input now old = elim input.next_run_at [
  | some t ↦ some t
  | none ↦
      if is_status input.status queued
      then some now
      else if is_status input.status running
      then old
      else none
]

abbrev pub last_run : Option Timestamp → Option Timestamp → Option Timestamp
last_run none old = old
last_run (some t) old = some t

abbrev pub moved : TransitionInput → Timestamp → LoopRecord → LoopRecord
moved input now l = record l {
  status = LoopStatus.as_str input.status;
  updated_at = now;
  next_run_at = next_run input now l.next_run_at;
  last_run_at = last_run input.last_run_at l.last_run_at;
}

unfoldable pub transition_status : String → TransitionInput → Timestamp → Service LoopRecord
transition_status id input now = do
  found ← reads (Loops.get_by_id id)
  l ← or_fail found (loop_not_found id)
  from_status ← status_of (LoopStatus.from_str l.status)
  guard (LoopStatus.can_transition_to from_status input.status)
      (invalid_loop_transition from_status input.status)
  writes (Loops.upsert (moved input now l))
  return (moved input now l)

-- a loop that does not run again by itself
abbrev pub halted : LoopStatus → Timestamp → LoopRecord → LoopRecord
halted status now l = record l {
  status = LoopStatus.as_str status;
  next_run_at = none;
  updated_at = now;
}

unfoldable pub pause : PauseInput → Timestamp → Service PauseResult
pause input now = do
  found ← reads (Loops.get_by_id input.loop_id)
  l ← or_fail found (loop_not_found input.loop_id)
  from_status ← status_of (LoopStatus.from_str l.status)
  guard (is_status from_status paused || LoopStatus.can_transition_to from_status paused)
      (cannot_pause from_status)
  writes (Loops.upsert (halted paused now l))
  cancelled ← statement (cancel_by_loop input.loop_id now input.reason)
  return (record { loop = halted paused now l; cancelled_queue_items = cancelled })

-- the inputs and results of `terminate` have the fields of those of `pause`
unfoldable pub terminate : PauseInput → Timestamp → Service PauseResult
terminate input now = do
  found ← reads (Loops.get_by_id input.loop_id)
  l ← or_fail found (loop_not_found input.loop_id)
  from_status ← status_of (LoopStatus.from_str l.status)
  guard (LoopStatus.can_transition_to from_status terminated) (cannot_terminate from_status)
  writes (Loops.upsert (halted terminated now l))
  cancelled ← statement (cancel_by_loop input.loop_id now input.reason)
  return (record { loop = halted terminated now l; cancelled_queue_items = cancelled })

-- the time is read twice
unfoldable pub resume : String → Timestamp → Timestamp → Service LoopRecord
resume loop_id at now =
    transition_status loop_id
      (record { status = queued; next_run_at = some at; last_run_at = none }) now
