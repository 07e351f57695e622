-- ===== src/Infra/WorktreeCleanup/Plan.antt =====
-- `plan` of crates/looper-infra/src/worktree_cleanup/plan.rs.
use looper_rust.Prelude.{
  ℕ, ◌+◌, String, ◌==◌, Bool, true, false, not, ◌&&◌, Option, none, some, List, [], ◌∷◌, ◌++◌, any,
  map, ltb, leb, if◌then◌else◌,
}
use looper_rust.Storage.Schema.{Timestamp, QueueItemRecord, LoopRecord}
use looper_rust.Storage.Loops
use looper_rust.Storage.Reads
use looper_rust.Storage.Runs.{RunRecord, Repositories, list_latest_by_loop_ids}
use looper_rust.Storage.Worktrees.{WorktreeRecord, list_active, list_cleanup_candidates}
use looper_rust.Infra.WorktreeCleanup.{
  Summary, DecisionAction, would_clean, skipped, Decision, CleanupOptions, Scan, scan_loop,
  scan_run, scan_queue_item, scan_all,
}

abbrev pub is_recent : ℕ → Option ℕ → Bool
is_recent cutoff none = false
is_recent cutoff (some t) = ltb cutoff t

-- what is done, and why
unfoldable pub verdict : CleanupOptions → ℕ → Scan → DecisionAction × String
verdict options cleaned s =
    if s.orphan && not options.include_orphans
    then (skipped, "orphan and include_orphans=false")
    else if s.blocked
    then (skipped, s.block_reason)
    else if is_recent options.retention_cutoff s.last_used_at
    then (skipped, "within retention window")
    else if leb options.max_per_tick cleaned
    then (skipped, "maxPerTick limit reached")
    else (would_clean, if s.orphan then "orphan worktree" else "stale worktree")

abbrev pub counted : DecisionAction → Bool → Summary → Summary
counted skipped orphan s = record s { skipped = s.skipped + 1 }
counted would_clean orphan s = record s {
  candidates = s.candidates + 1;
  would_clean = s.would_clean + 1;
  orphans = if orphan then s.orphans + 1 else s.orphans;
}

-- the first of the worktrees with one id
unfoldable pub deduplicate : List String → List WorktreeRecord → List WorktreeRecord
deduplicate seen [] = []
deduplicate seen (w ∷ ws) =
    let is_seen = any (λ id. id == w.id) seen in
    let rest = deduplicate (if is_seen then seen else w.id ∷ seen) ws in
    if is_seen then rest else w ∷ rest

module _ (instant : Timestamp → Option ℕ) (loops : List LoopRecord) (runs : List RunRecord)
    (queue_items : List QueueItemRecord) (options : CleanupOptions) where
  unfoldable pub scan : WorktreeRecord → Scan
  scan wt = scan_all (scan_queue_item instant wt) queue_items (
      scan_all (scan_run instant wt) runs (
        scan_all (scan_loop instant wt) loops (record {
          orphan = true;
          last_used_at = none;
          references = [];
          blocked = false;
          block_reason = "";
        })))

  abbrev pub decide : WorktreeRecord → ℕ → Decision
  decide wt cleaned = record {
    worktree = wt;
    action = (verdict options cleaned (scan wt)).0;
    reason = (verdict options cleaned (scan wt)).1;
    last_used_at = (scan wt).last_used_at;
    orphan = (scan wt).orphan;
    references = (scan wt).references;
  }

  abbrev pub step : WorktreeRecord → Summary → Summary
  step wt s =
      if wt.status == "cleaned"
      then record s { scanned = s.scanned + 1 }
      else counted (decide wt s.would_clean).action (scan wt).orphan
          (record s { scanned = s.scanned + 1 })

  abbrev pub with_decision : WorktreeRecord → Summary → List Decision → List Decision
  with_decision wt s rest = if wt.status == "cleaned" then rest else decide wt s.would_clean ∷ rest

  -- the loop over the worktrees
  unfoldable pub plan_worktrees : List WorktreeRecord → Summary → Summary × List Decision
  plan_worktrees [] s = (s, [])
  plan_worktrees (wt ∷ rest) s =
      let planned = plan_worktrees rest (step wt s) in (planned.0, with_decision wt s planned.1)

abbrev pub no_summary : Summary
no_summary = record {
  scanned = 0;
  candidates = 0;
  would_clean = 0;
  skipped = 0;
  failed = 0;
  orphans = 0;
}

-- the worktrees in question: active ones, and at most 100 others that are not cleaned
abbrev pub in_question : List WorktreeRecord → List WorktreeRecord
in_question worktrees =
    deduplicate [] (list_active worktrees ++ list_cleanup_candidates 100 worktrees)

abbrev pub runs_of_loops : Repositories → List RunRecord
runs_of_loops s = list_latest_by_loop_ids (map (λ (l : LoopRecord). l.id) (Loops.list s.db)) s

unfoldable pub plan :
    (Timestamp → Option ℕ)
    → CleanupOptions
    → List WorktreeRecord
    → Repositories
    → Summary × List Decision
plan instant options worktrees s =
    plan_worktrees instant (Loops.list s.db) (runs_of_loops s) (Reads.list s.db) options
      (in_question worktrees) no_summary
