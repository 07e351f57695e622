-- ===== src/Scheduler/Reconcile.antt =====
-- crates/looper-scheduler/src/recovery.rs: the reconciliation of the runs that are marked as running.
-- The context may be cancelled by another thread at any time: it is the function from the number
-- of a poll to its answer, and the phases count their polls. The operating system, chrono and the
-- functions of Rust on strings are parameters.
pub mod Detached
pub mod Startup
pub mod Emptied
pub mod Interrupted
pub mod Written
pub mod Steps
pub mod Cancelled
use looper_rust.Prelude.{
  ℕ, ◌+◌, ◌*◌, String, ◌==◌, Bool, true, false, not, ◌&&◌, Option, none, some, List, [], ◌∷◌, ◌++◌,
  any, leb, if◌then◌else◌,
}
use looper_rust.Storage.Schema.{Timestamp, Db, Result, ok, err, StorageError}
use looper_rust.Storage.Sql.{sql_eq}
use looper_rust.Storage.Update.{cancel_by_loop, requeue_latest_failed_by_loop}
use looper_rust.Storage.Runs.{
  RunRecord, AgentExecutionRecord, Repositories, upsert, list_by_status, list_active,
}

-- Code outside the program: `ps` (none when it cannot be run, then the output if it succeeds),
-- Rust's `trim` and first word (empty if there is none), and chrono's instants, in
-- nanoseconds.
pub record System : Type 0 where
  pub ps : ℕ → Option (Option String)
  pub trim : String → String
  pub first_word : String → String
  pub parse_from_rfc3339 : Timestamp → Option ℕ
  pub format_javascript_iso_string : ℕ → Timestamp

abbrev pub Context : Type 0
Context = ℕ → Bool

pub data StaleRunReconcileMode : Type 0 where
  startup live manual : StaleRunReconcileMode

pub record StaleRunReconcileSummary : Type 0 where
  pub mode : StaleRunReconcileMode
  pub started_at : Option ℕ
  pub completed_at : Option ℕ
  pub candidate_runs : ℕ
  pub interrupted_runs : ℕ
  pub loops_requeued : ℕ
  pub queue_items_requeued : ℕ
  pub queue_items_cancelled : ℕ
  pub cleaned_executions : ℕ
  pub skipped_uncertain_runs : ℕ
  pub events_written : ℕ
  pub run_ids : List String
  pub loop_ids : List String
  pub execution_ids : List String

pub record StaleRunDecision : Type 0 where
  pub candidate : Bool
  pub uncertain : Bool

-- 30 minutes
abbrev pub heartbeat_stale_threshold : ℕ
heartbeat_stale_threshold = 30 * 60 * 1000000000

-- `now - t >= threshold`, where a text that does not parse gives the age zero
abbrev pub is_stale : ℕ → Option ℕ → Bool
is_stale now none = false
is_stale now (some t) = leb (t + heartbeat_stale_threshold) now

abbrev pub last_sign : RunRecord → Timestamp
last_sign run = elim run.last_heartbeat_at [ some hb ↦ hb | none ↦ run.started_at ]

abbrev pub has_active_exec : RunRecord → List AgentExecutionRecord → Bool
has_active_exec run active_executions =
    any (λ (e : AgentExecutionRecord). sql_eq e.run_id run.id && e.status == "running")
      active_executions

abbrev pub by_heartbeat : System → RunRecord → ℕ → StaleRunDecision
by_heartbeat sys run now = record {
  candidate = is_stale now (sys.parse_from_rfc3339 (last_sign run));
  uncertain = false;
}

unfoldable pub evaluate_stale_run_candidate :
    System → RunRecord → List AgentExecutionRecord → ℕ → StaleRunReconcileMode → StaleRunDecision
evaluate_stale_run_candidate sys run active_executions now startup = record {
  candidate = true;
  uncertain = not (has_active_exec run active_executions);
}
evaluate_stale_run_candidate sys run active_executions now live = by_heartbeat sys run now
evaluate_stale_run_candidate sys run active_executions now manual = by_heartbeat sys run now

-- The error of the first statement that fails, if one does, and what was written until then.
unfoldable pub repair_queue_items_for_run : String → Timestamp → Db → Option StorageError × Db
repair_queue_items_for_run loop_id now_iso db =
    elim (cancel_by_loop loop_id now_iso (some "recovery interrupted") db) [
      | err e ↦ (some e, db)
      | ok (n, db') ↦ elim (requeue_latest_failed_by_loop loop_id now_iso db') [
        | err e ↦ (some e, db')
        | ok (m, db'') ↦ (none, db'')
      ]
    ]

-- the run as interrupted; the result of the write is ignored
abbrev pub or_unchanged : Repositories → Result Repositories → Repositories
or_unchanged s (ok s') = s'
or_unchanged s (err e) = s

unfoldable pub interrupt : RunRecord → Timestamp → Repositories → Repositories
interrupt run now_iso s =
    or_unchanged s (upsert (record run { status = "interrupted"; ended_at = some now_iso }) s)

-- how far the loop over the runs came
pub record Reconciliation : Type 0 where
  pub summary : StaleRunReconcileSummary
  pub error : Option StorageError
  pub repos : Repositories
  pub polls : ℕ

-- the body of the loop for a run that is neither passed over nor uncertain
unfoldable pub interrupt_run : RunRecord → Timestamp → Reconciliation → Reconciliation
interrupt_run run now_iso c =
    let s = interrupt run now_iso c.repos in
    let (error, db) = repair_queue_items_for_run run.loop_id now_iso s.db in
    let counted = record c.summary {
      interrupted_runs = c.summary.interrupted_runs + 1;
      run_ids = c.summary.run_ids ++ run.id ∷ [];
    } in
    record c {
      repos = record s { db = db };
      error = error;
      summary = elim error [
        | some e ↦ counted
        | none ↦ record counted {
          loops_requeued = counted.loops_requeued + 1;
          loop_ids = counted.loop_ids ++ run.loop_id ∷ [];
        }
      ];
    }

unfoldable pub reconcile_run :
    System → List AgentExecutionRecord → ℕ → RunRecord → Reconciliation → Reconciliation
reconcile_run sys active_executions now run c =
    let decision = evaluate_stale_run_candidate sys run active_executions now c.summary.mode in
    if not decision.candidate
    then c
    else if decision.uncertain
    then record c {
      summary = record c.summary { skipped_uncertain_runs = c.summary.skipped_uncertain_runs + 1 };
    }
    else interrupt_run run (sys.format_javascript_iso_string now) c

-- an error returns from the function, so the loop goes on only without one
unfoldable pub reconcile_runs :
    System
    → Context
    → List AgentExecutionRecord
    → ℕ
    → List RunRecord
    → Reconciliation
    → Reconciliation
reconcile_runs sys ctx active_executions now [] c = c
reconcile_runs sys ctx active_executions now (run ∷ runs) c =
    let polled = record c { polls = c.polls + 1 } in
    elim (ctx c.polls) [
      | true ↦ polled
      | false ↦
          (let next = reconcile_run sys active_executions now run polled in
            elim next.error [
              | some e ↦ next
              | none ↦ reconcile_runs sys ctx active_executions now runs next
            ])
    ]

-- `polls` is the number of polls before the call. The summary is returned when there is no error.
unfoldable pub reconcile_stale_runs :
    System → ℕ → StaleRunReconcileMode → Context → ℕ → Repositories → Reconciliation
reconcile_stale_runs sys now mode ctx polls s =
    let c = reconcile_runs sys ctx (list_active s) now (list_by_status "running" s) (record {
      summary = record {
        mode = mode;
        started_at = some now;
        completed_at = none;
        candidate_runs = 0;
        interrupted_runs = 0;
        loops_requeued = 0;
        queue_items_requeued = 0;
        queue_items_cancelled = 0;
        cleaned_executions = 0;
        skipped_uncertain_runs = 0;
        events_written = 0;
        run_ids = [];
        loop_ids = [];
        execution_ids = [];
      };
      error = none;
      repos = s;
      polls = polls;
    }) in
    record c { summary = record c.summary { completed_at = some now } }
