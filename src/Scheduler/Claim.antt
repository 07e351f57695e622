-- ===== src/Scheduler/Claim.antt =====
-- crates/looper-scheduler/src/claim.rs, and the claim phases of tick.rs and scheduler.rs.
-- The handlers are code of other crates that the dispatched tasks run on threads of their own; of
-- a handler only its presence matters here. Errors are logged by the source and end the loop.
pub mod Bound
pub mod Drained
use looper_rust.Prelude.{
  ℕ, zero, suc, ◌-◌, String, ◌==◌, Bool, true, false, not, ◌&&◌, ◌||◌, Option, none, some, List, [],
  ◌∷◌, ◌++◌, any, length, leb, eqb, if◌then◌else◌,
}
use looper_rust.Storage.Schema.{QueueItemRecord, Timestamp, Db, Result, ok, err}
use looper_rust.Storage.Queue.{
  claim_next_non_long_term_retry, claim_next_long_term_retry, count_by_status,
}

pub data RunnerKind : Type 0 where
  planner reviewer fixer worker coordinator snapshot : RunnerKind

-- which handlers are configured
pub record HandlerMap : Type 0 where
  pub planner_set : Bool
  pub coordinator_set : Bool
  pub reviewer_set : Bool
  pub fixer_set : Bool
  pub worker_set : Bool
  pub snapshot_set : Bool

unfoldable pub has_claim_handler : HandlerMap → Bool
has_claim_handler h =
    h.planner_set || (h.reviewer_set || (h.fixer_set || (h.worker_set || h.snapshot_set)))

pub data SchedulerError : Type 0 where
  handler_not_configured unresolvable_processor : String → SchedulerError

pub data Processor : Type 0 where
  processor : RunnerKind → Processor
  unresolved : SchedulerError → Processor

-- `handler.as_ref().ok_or_else(…)`
abbrev pub if_set : Bool → RunnerKind → String → Processor
if_set true kind name = processor kind
if_set false kind name = unresolved (handler_not_configured name)

unfoldable pub resolve_processor : HandlerMap → QueueItemRecord → Processor
resolve_processor h item =
    if item.type == "planner"
    then if_set h.planner_set planner "planner"
    else if item.type == "reviewer"
    then if_set h.reviewer_set reviewer "reviewer"
    else if item.type == "fixer"
    then if_set h.fixer_set fixer "fixer"
    else if item.type == "worker"
    then if_set h.worker_set worker "worker"
    else if item.type == "snapshot"
    then if_set h.snapshot_set snapshot "snapshot"
    else unresolved (unresolvable_processor item.type)

-- a task given to the asynchronous runner
pub record Task : Type 0 where
  pub kind : RunnerKind
  pub item : QueueItemRecord

unfoldable pub dispatch_queue_items : HandlerMap → List QueueItemRecord → List Task
dispatch_queue_items h [] = []
dispatch_queue_items h (item ∷ items) =
    let rest = dispatch_queue_items h items in
    elim (resolve_processor h item) [
      | unresolved e ↦ rest
      | processor kind ↦ record { kind = kind; item = item } ∷ rest
    ]

-- a claim statement of the queue
abbrev pub Claimer : Type 0
Claimer = Db → Result (Option QueueItemRecord × Db)

-- Both loops of `claim_and_run`: at most `n` rounds, ended by the first that claims nothing.
unfoldable pub claim_up_to : Claimer → ℕ → Db → List QueueItemRecord × Db
claim_up_to claim zero db = ([], db)
claim_up_to claim (suc n) db = elim (claim db) [
  | ok (some item, db') ↦ (let (items, db'') = claim_up_to claim n db' in (item ∷ items, db''))
  | ok (none, db') ↦ ([], db')
  | err e ↦ ([], db)
]

-- the items claimed, the tasks started for them, and the database
pub record ClaimRun : Type 0 where
  pub queue_items : List QueueItemRecord
  pub tasks : List Task
  pub db : Db

-- `while queue_items.len() < available_slots` has as many rounds as slots are left
unfoldable pub claim_and_run : HandlerMap → Timestamp → ℕ → Db → ClaimRun
claim_and_run h now available_slots db =
    let (short, db₁) =
      claim_up_to (claim_next_non_long_term_retry now "scheduler") available_slots db in
    let (long, db₂) =
      claim_up_to (claim_next_long_term_retry now "scheduler") (available_slots - length short)
        db₁ in
    record { queue_items = short ++ long; tasks = dispatch_queue_items h (short ++ long); db = db₂ }

-- scheduler.rs
unfoldable pub compute_available_slots : ℕ → Db → ℕ
compute_available_slots max_concurrent_runs db =
    if eqb max_concurrent_runs 0
    then 0
    else let running_count = count_by_status db "running" in
      if leb max_concurrent_runs running_count then 0 else max_concurrent_runs - running_count

unfoldable pub execute_claim_pass : HandlerMap → ℕ → Timestamp → Db → ClaimRun
execute_claim_pass h max_concurrent_runs now db =
    let available = compute_available_slots max_concurrent_runs db in
    if eqb available 0
    then record { queue_items = []; tasks = []; db = db }
    else claim_and_run h now available db

-- tick.rs: `reconcile` is the callback that repairs stale runs. It says whether it succeeded.
abbrev pub Reconcile : Type 0
Reconcile = Option (Db → Bool × Db)

abbrev pub contains_id : List String → QueueItemRecord → Bool
contains_id ids q = any (λ i. i == q.id) ids

pub record ClaimPhaseRun : Type 0 where
  pub run : ClaimRun
  pub claimed : ℕ
  pub available : ℕ
  -- whether the phase asked for another tick
  pub ticked : Bool

-- the slots and the database after the stale runs were reconciled, if no slot was free
unfoldable pub reconciled : Reconcile → ℕ → Db → ℕ × Db
reconciled reconcile max db =
    let available = compute_available_slots max db in
    if eqb available 0
    then elim reconcile [
      | none ↦ (available, db)
      | some f ↦
          (let (repaired, db') = f db in
            (if repaired then compute_available_slots max db' else available, db'))
    ]
    else (available, db)

unfoldable pub execute_claim_phase :
    HandlerMap → Reconcile → ℕ → Timestamp → List String → Db → ClaimPhaseRun
execute_claim_phase h reconcile max now discovered db =
    let (available, db') = reconciled reconcile max db in
    let items =
      if eqb available 0
      then record { queue_items = []; tasks = []; db = db' }
      else claim_and_run h now available db' in
    record {
      run = items;
      claimed = length items.queue_items;
      available = available;
      ticked =
          not (eqb available 0)
          && (has_claim_handler h && any (contains_id discovered) items.queue_items);
    }
