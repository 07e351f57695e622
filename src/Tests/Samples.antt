-- ===== src/Tests/Samples.antt =====
-- Rows and databases for the tests.
use looper_rust.Prelude.{false, none, some, [], ◌∷◌, pos, negsuc, refl}
use looper_rust.Storage.Schema.{
  QueueItemRecord, LoopRecord, ProjectRecord, LockRecord, Db, row_ok, ids_ok, index_ok, index_clash,
  is_indexed, is_active,
}
use looper_rust.Storage.WellFormed.{IsWellFormed}

abbrev pub worker_item : QueueItemRecord
worker_item = record {
  id = "q1";
  project_id = none;
  loop_id = none;
  type = "worker";
  target_type = "issue";
  target_id = "7";
  repo = some "acme/looper";
  pr_number = none;
  dedupe_key = "worker:7";
  priority = pos 3;
  status = "queued";
  available_at = 10;
  attempts = pos 0;
  max_attempts = negsuc 0;
  claimed_by = none;
  claimed_at = none;
  started_at = none;
  finished_at = none;
  lock_key = none;
  payload_json = none;
  last_error = none;
  last_error_kind = none;
  created_at = 5;
  updated_at = 5;
}

-- a more urgent item, and one that has failed often
abbrev pub planner_item : QueueItemRecord
planner_item = record worker_item {
  id = "q2";
  type = "planner";
  dedupe_key = "planner:8";
  priority = pos 1;
}

abbrev pub tired_item : QueueItemRecord
tired_item = record worker_item {
  id = "q3";
  dedupe_key = "worker:9";
  attempts = pos 6;
  last_error_kind = some "retryable_transient";
}

abbrev pub sample : Db
sample = record {
  queue_items = worker_item ∷ planner_item ∷ tired_item ∷ [];
  locks = [];
  loops = [];
  projects = [];
  loop_seq = 0;
}

pub sample-IsWellFormed : IsWellFormed sample
unfolding row_ok ids_ok index_ok index_clash is_indexed is_active
sample-IsWellFormed = record { rows_hold = refl; ids_differ = refl; index_holds = refl }

abbrev pub idle_db : Db
idle_db = record sample { queue_items = [] }

pub idle_db-IsWellFormed : IsWellFormed idle_db
unfolding row_ok ids_ok index_ok
idle_db-IsWellFormed = record { rows_hold = refl; ids_differ = refl; index_holds = refl }

abbrev pub worker_loop : LoopRecord
worker_loop = record {
  id = "l1";
  seq = pos 1;
  project_id = "p1";
  type = "worker";
  target_type = "issue";
  target_id = some "issue:acme/looper#7";
  repo = some "acme/looper";
  pr_number = none;
  status = "running";
  config_json = none;
  metadata_json = none;
  last_run_at = none;
  next_run_at = none;
  created_at = 5;
  updated_at = 5;
}

abbrev pub project : ProjectRecord
project = record {
  id = "p1";
  name = "looper";
  repo_path = "acme/looper";
  base_branch = none;
  archived = false;
  metadata_json = none;
  created_at = 5;
  updated_at = 5;
}

abbrev pub lease : LockRecord
lease = record {
  key = "repo";
  owner = "alice";
  reason = none;
  expires_at = 100;
  created_at = 1;
  updated_at = 1;
}

abbrev pub rival : LockRecord
rival = record lease { owner = "bob"; expires_at = 120; created_at = 2; updated_at = 2 }

abbrev pub leased_db : Db
leased_db = record sample { locks = lease ∷ [] }
