-- ===== src/Tests/Recoveries.antt =====
-- The recovery after a restart.
use looper_rust.Prelude.{
  false, ◌≡◌, refl, not, none, some, [], ◌∷◌, map, keep, count, pos, any, Memᴰ, ◌+◌, if◌then◌else◌,
}
use looper_rust.Storage.Schema.{
  Db, QueueItemRecord, row_ok, ids_ok, index_ok, index_clash, is_indexed, is_active,
}
use looper_rust.Storage.WellFormed.{IsWellFormed}
use looper_rust.Storage.Sql.{sql_eq}
use looper_rust.Storage.Locks.Leases.{keys_ok}
use looper_rust.Storage.Runs.{RunRecord, AgentExecutionRecord, Repositories, upsert, list_active}
use looper_rust.Scheduler.Reconcile.{
  System, Context, Reconciliation, startup, reconcile_stale_runs, reconcile_run,
  repair_queue_items_for_run,
}
use looper_rust.Scheduler.Recovery.{phase_expired_lock_release}
use looper_rust.Scheduler.Recovery.Expired.{is_expired, phase_expired_lock_release-exact}
use looper_rust.Scheduler.Reconcile.Detached.{upsert-detaches}
use looper_rust.Scheduler.Reconcile.Emptied.{stop_work, reconcile_stale_runs-empties}
use looper_rust.Scheduler.Reconcile.Startup.{taken}
use looper_rust.Storage.Cancelled.{is_work_of}
use looper_rust.Scheduler.Reconcile.Cancelled.{stopped, repair_queue_items_for_run-cancels}
use looper_rust.Tests.Samples.{worker_loop, worker_item, sample, leased_db}

-- every process runs `looper`, and every text of a time is its rank
abbrev machine : System
machine = record {
  ps = λ pid. some (some "looper");
  trim = λ s. s;
  first_word = λ s. s;
  parse_from_rfc3339 = λ t. some t;
  format_javascript_iso_string = λ n. n;
}

abbrev calm : Context
calm n = false

abbrev busy_item : QueueItemRecord
busy_item = record worker_item { loop_id = some "l1"; status = "running" }

abbrev pub busy_db : Db
busy_db = record sample { queue_items = busy_item ∷ []; loops = worker_loop ∷ [] }

pub busy_db-IsWellFormed : IsWellFormed busy_db
unfolding row_ok ids_ok index_ok index_clash is_indexed is_active
busy_db-IsWellFormed = record { rows_hold = refl; ids_differ = refl; index_holds = refl }

abbrev busy_run : RunRecord
busy_run = record {
  id = "r1";
  loop_id = "l1";
  status = "running";
  current_step = none;
  last_completed_step = none;
  checkpoint_json = none;
  summary = none;
  error_message = none;
  agent_vendor = none;
  model = none;
  started_at = 20;
  last_heartbeat_at = none;
  ended_at = none;
  created_at = 20;
  updated_at = 20;
}

abbrev execution : AgentExecutionRecord
execution = record {
  id = "e1";
  run_id = some "r1";
  status = "running";
  pid = some (pos 42);
  command_json = some "looper";
  started_at = 21;
}

abbrev pub store : Repositories
store = record { db = busy_db; runs = busy_run ∷ []; agent_executions = execution ∷ [] }

abbrev stepped : RunRecord
stepped = record busy_run { current_step = some "review"; updated_at = 30 }

abbrev stepped_store : Repositories
stepped_store = record {
  db = busy_db;
  runs = stepped ∷ [];
  agent_executions = record execution { run_id = none } ∷ [];
}

phase_expired_lock_release-exact_example :
    ((phase_expired_lock_release 110 leased_db).0 ≡ count (is_expired 110) leased_db.locks)
    × ((phase_expired_lock_release 110 leased_db).1.locks
        ≡ keep (λ l. not (is_expired 110 l)) leased_db.locks)
unfolding keys_ok
phase_expired_lock_release-exact_example = phase_expired_lock_release-exact 110 leased_db refl

abbrev begun : Reconciliation
begun = record {
  summary = record {
    mode = startup;
    started_at = some 100;
    completed_at = none;
    candidate_runs = 0;
    interrupted_runs = 0;
    loops_requeued = 0;
    queue_items_requeued = 0;
    queue_items_cancelled = 0;
    cleaned_executions = 0;
    skipped_uncertain_runs = 0;
    events_written = 0;
    run_ids = [];
    loop_ids = [];
    execution_ids = [];
  };
  error = none;
  repos = stepped_store;
  polls = 0;
}

upsert-detaches_example :
    (any (λ (e : AgentExecutionRecord). sql_eq e.run_id "r1") stepped_store.agent_executions
      ≡ false)
    × (reconcile_run machine (list_active stepped_store) 100 stepped begun
        ≡ record begun { summary = record begun.summary { skipped_uncertain_runs = 0 + 1 } })
unfolding upsert
upsert-detaches_example =
    upsert-detaches machine 100 stepped busy_run store stepped_store begun (Memᴰ.head refl) refl
      refl refl

repair_queue_items_for_run-cancels_example :
    ((repair_queue_items_for_run "l1" 100 busy_db).0 ≡ none)
    × ((repair_queue_items_for_run "l1" 100 busy_db).1.queue_items
        ≡ map (λ q. if is_work_of "l1" q then stopped 100 q else q) busy_db.queue_items)
repair_queue_items_for_run-cancels_example =
    repair_queue_items_for_run-cancels "l1" 100 busy_db busy_db-IsWellFormed refl

reconcile_stale_runs-empties_example :
    ((reconcile_stale_runs machine 100 startup calm 0 store).error ≡ none)
    × ((reconcile_stale_runs machine 100 startup calm 0 store).repos.db.queue_items
        ≡ map (stop_work 100 (taken store)) busy_db.queue_items)
reconcile_stale_runs-empties_example =
    reconcile_stale_runs-empties machine 100 calm 0 store (λ k. refl) busy_db-IsWellFormed refl
