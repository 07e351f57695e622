-- ===== src/Scheduler/Recovery.antt =====
-- crates/looper-scheduler/src/recovery.rs: what the daemon repairs when it starts.
-- The store does not fail to list rows.
pub mod Expired
use looper_rust.Prelude.{
  ℕ, ◌+◌, ◌-◌, ◌%◌, String, ◌==◌, Bool, true, false, ◌||◌, Option, none, some, List, [], ◌∷◌, ◌++◌,
  length, if◌then◌else◌, ℤ, pos, negsuc, leb_ℤ,
}
use looper_rust.Storage.Schema.{Timestamp, LockRecord, Db, ok, err}
use looper_rust.Storage.Locks.{release, list_expired}
use looper_rust.Storage.Update.{cleanup_stale_queued}
use looper_rust.Scheduler.Failure.{contains}
use looper_rust.Storage.Runs.{AgentExecutionRecord, Repositories, list_active}
use looper_rust.Scheduler.Reconcile.{System, Context, startup, Reconciliation, reconcile_stale_runs}

-- whether the process runs, and whether its command is the expected one; none for an error
unfoldable pub verify_process_identity : System → ℕ → String → Option (Bool × Bool)
verify_process_identity sys pid expected_command = elim (sys.ps pid) [
  | none ↦ none
  | some none ↦ some (false, false)
  | some (some stdout) ↦
      (let actual_cmd = sys.trim stdout in
        let actual_first = sys.first_word actual_cmd in
        let expected_first = sys.first_word expected_command in
        (if actual_cmd == ""
          then some (false, false)
          else some
              (true, contains actual_first expected_first || contains expected_first actual_first)))
]

-- what the first phase did: the two counts, and the processes it killed
pub record OrphanCleanup : Type 0 where
  pub cleaned : ℕ
  pub uncertain : ℕ
  pub killed : List ℕ
  pub polls : ℕ

-- `pid as u32`
abbrev pub as_u32 : ℤ → ℕ
as_u32 (pos n) = n % 4294967296
as_u32 (negsuc n) = 4294967295 - n % 4294967296

-- one execution with a pid
unfoldable pub clean_orphan : System → ℤ → String → OrphanCleanup → OrphanCleanup
clean_orphan sys pid command c =
    if leb_ℤ pid (pos 0) then c else elim (verify_process_identity sys (as_u32 pid) command) [
      | some (true, true) ↦ record c {
        cleaned = c.cleaned + 1;
        killed = c.killed ++ as_u32 pid ∷ [];
      }
      | some (false, b) ↦ record c { cleaned = c.cleaned + 1 }
      | some (true, false) ↦ record c { uncertain = c.uncertain + 1 }
      | none ↦ record c { uncertain = c.uncertain + 1 }
    ]

abbrev pub command_or_default : Option String → String
command_or_default none = ""
command_or_default (some s) = s

unfoldable pub clean_orphans :
    System → Context → List AgentExecutionRecord → OrphanCleanup → OrphanCleanup
clean_orphans sys ctx [] c = c
clean_orphans sys ctx (e ∷ executions) c =
    let polled = record c { polls = c.polls + 1 } in
    elim (ctx c.polls) [
      | true ↦ polled
      | false ↦ clean_orphans sys ctx executions (elim e.pid [
        | none ↦ polled
        | some pid ↦ clean_orphan sys pid (command_or_default e.command_json) polled
      ])
    ]

unfoldable pub phase_orphan_cleanup : System → Context → Repositories → OrphanCleanup
phase_orphan_cleanup sys ctx s =
    clean_orphans sys ctx (list_active s)
      (record { cleaned = 0; uncertain = 0; killed = []; polls = 0 })

unfoldable pub release_all : List LockRecord → Db → Db
release_all [] db = db
release_all (l ∷ locks) db = release_all locks (release l.key db)

unfoldable pub phase_expired_lock_release : Timestamp → Db → ℕ × Db
phase_expired_lock_release now_iso db =
    let locks = list_expired now_iso db in (length locks, release_all locks db)

pub record RecoverySummary : Type 0 where
  pub started_at : Option ℕ
  pub completed_at : Option ℕ
  pub orphan_cleaned : ℕ
  pub orphan_uncertain : ℕ
  pub expired_locks_released : ℕ
  pub interrupted_runs : ℕ
  pub loops_requeued : ℕ
  pub queue_items_requeued : ℕ
  pub queue_items_cancelled : ℕ
  pub cleaned_executions : ℕ
  pub skipped_uncertain_runs : ℕ
  pub loop_normalization_events : ℕ
  pub run_ids : List String
  pub loop_ids : List String
  pub execution_ids : List String

-- the summary, the store, and the processes that were killed
pub record Recovery : Type 0 where
  pub summary : RecoverySummary
  pub repos : Repositories
  pub killed : List ℕ

abbrev pub after_reconciliation : RecoverySummary → Reconciliation → RecoverySummary
after_reconciliation summary c = elim c.error [
  | some e ↦ summary
  | none ↦ record summary {
    interrupted_runs = c.summary.interrupted_runs;
    loops_requeued = c.summary.loops_requeued;
    queue_items_requeued = c.summary.queue_items_requeued;
    queue_items_cancelled = c.summary.queue_items_cancelled;
    cleaned_executions = c.summary.cleaned_executions;
    skipped_uncertain_runs = c.summary.skipped_uncertain_runs;
    run_ids = c.summary.run_ids;
    loop_ids = c.summary.loop_ids;
    execution_ids = c.summary.execution_ids;
  }
]

-- the last phase
unfoldable pub clean_stale_queued : Timestamp → Recovery → Recovery
clean_stale_queued now_iso r = elim (cleanup_stale_queued now_iso "loop terminated" r.repos.db) [
  | ok (n, db) ↦ record r {
    summary = record r.summary { loop_normalization_events = n };
    repos = record r.repos { db = db };
  }
  | err e ↦ r
]

-- the phases after the cancellation check that follows the release of the locks
unfoldable pub recover_runs : System → ℕ → Context → ℕ → Recovery → Recovery
recover_runs sys now ctx polls r =
    let c = reconcile_stale_runs sys now startup ctx polls r.repos in
    let reconciled = record r { summary = after_reconciliation r.summary c; repos = c.repos } in
    if ctx c.polls
    then reconciled
    else clean_stale_queued (sys.format_javascript_iso_string now) reconciled

unfoldable pub run_recovery : System → ℕ → Context → Repositories → Recovery
run_recovery sys now ctx s =
    let orphans = phase_orphan_cleanup sys ctx s in
    let first : Recovery = record {
      summary = record {
        started_at = some now;
        completed_at = none;
        orphan_cleaned = orphans.cleaned;
        orphan_uncertain = orphans.uncertain;
        expired_locks_released = 0;
        interrupted_runs = 0;
        loops_requeued = 0;
        queue_items_requeued = 0;
        queue_items_cancelled = 0;
        cleaned_executions = 0;
        skipped_uncertain_runs = 0;
        loop_normalization_events = 0;
        run_ids = [];
        loop_ids = [];
        execution_ids = [];
      };
      repos = s;
      killed = orphans.killed;
    } in
    if ctx orphans.polls
    then first
    else let (released, db) =
        phase_expired_lock_release (sys.format_javascript_iso_string now) s.db in
      let second : Recovery = record first {
        summary = record first.summary { expired_locks_released = released };
        repos = record s { db = db };
      } in
      if ctx (orphans.polls + 1)
      then second
      else recover_runs sys now ctx (orphans.polls + 2) second
