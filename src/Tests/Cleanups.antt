-- ===== src/Tests/Cleanups.antt =====
-- A worktree that nothing uses.
use looper_rust.Prelude.{true, false, ◌≡◌, refl, none, some, [], ◌∷◌, count, Memᴰ, ◌≤◌}
use looper_rust.Storage.Loops
use looper_rust.Storage.Reads
use looper_rust.Storage.Worktrees.{WorktreeRecord, list_active, list_cleanup_candidates}
use looper_rust.Storage.Runs.{Repositories, list_latest_by_loop_ids}
use looper_rust.Storage.Sql.{order_by, insert_ordered, limit}
use looper_rust.Infra.WorktreeCleanup.{CleanupOptions, Decision, would_clean, scan_all}
use looper_rust.Infra.WorktreeCleanup.Plan.{
  plan, plan_worktrees, verdict, scan, deduplicate, runs_of_loops,
}
use looper_rust.Infra.WorktreeCleanup.Spared.{IsSpare, plan-IsSpare}
use looper_rust.Infra.WorktreeCleanup.Limit.{is_cleaned, plan-bound}
use looper_rust.Tests.Samples.{idle_db}

abbrev stale : WorktreeRecord
stale = record {
  id = "w1";
  project_id = "p1";
  repo_path = "repos/looper";
  worktree_path = "trees/looper-7";
  branch = "worker/7";
  base_branch = none;
  status = "active";
  head_sha = none;
  metadata_json = none;
  created_at = 1;
  updated_at = 2;
  cleaned_at = none;
}

abbrev idle_store : Repositories
idle_store = record { db = idle_db; runs = []; agent_executions = [] }

abbrev options : CleanupOptions
options = record {
  include_orphans = true;
  retention_cutoff = 50;
  max_per_tick = 2;
  dry_run = false;
  project_id = none;
}

abbrev cleaned : Decision
cleaned = record {
  worktree = stale;
  action = would_clean;
  reason = "orphan worktree";
  last_used_at = none;
  orphan = true;
  references = [];
}

cleaned-planned : Memᴰ cleaned (plan some options (stale ∷ []) idle_store).1
unfolding plan plan_worktrees verdict scan scan_all deduplicate list_active list_cleanup_candidates
    order_by insert_ordered limit Loops.list Reads.list list_latest_by_loop_ids
cleaned-planned = Memᴰ.head refl

plan-IsSpare_example :
    IsSpare some options
      (Loops.list idle_db)
      (runs_of_loops idle_store)
      (Reads.list idle_db)
      cleaned
plan-IsSpare_example =
    plan-IsSpare some options (stale ∷ []) idle_store cleaned cleaned-planned refl

plan-bound_example :
    ((plan some options (stale ∷ []) idle_store).0.would_clean
      ≡ count is_cleaned (plan some options (stale ∷ []) idle_store).1)
    × ((plan some options (stale ∷ []) idle_store).0.would_clean ≤ 2)
plan-bound_example = plan-bound some options (stale ∷ []) idle_store
