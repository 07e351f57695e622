-- ===== src/Infra/WorktreeCleanup.antt =====
-- crates/looper-infra/src/worktree_cleanup/plan.rs. The time before which a worktree is old is an
-- argument, and so is the instant that a text of a timestamp denotes, if it denotes one. The text
-- of an instant is the instant.
pub mod Plan
pub mod Used
pub mod Spared
pub mod Limit
use looper_rust.Prelude.{
  ℕ, suc, ◌+◌, String, ◌==◌, Bool, true, false, not, ◌&&◌, ◌||◌, Option, none, some, List, [], ◌∷◌,
  ◌++◌, any, map, ltb, leb, contains, concat, if◌then◌else◌,
}
use looper_rust.Storage.Schema.{Timestamp, QueueItemRecord, LoopRecord, is_active, is_in}
use looper_rust.Storage.Loops
use looper_rust.Storage.Reads
use looper_rust.Storage.Runs.{RunRecord, Repositories, list_latest_by_loop_ids}
use looper_rust.Storage.Worktrees.{WorktreeRecord, list_active, list_cleanup_candidates}

pub record Summary : Type 0 where
  pub scanned : ℕ
  pub candidates : ℕ
  pub would_clean : ℕ
  pub skipped : ℕ
  pub failed : ℕ
  pub orphans : ℕ

pub data DecisionAction : Type 0 where
  would_clean skipped : DecisionAction

-- a reference by a loop, a run or a queue item
pub record Ref : Type 0 where
  pub kind : String
  pub id : String
  pub status : String

pub record Decision : Type 0 where
  pub worktree : WorktreeRecord
  pub action : DecisionAction
  pub reason : String
  pub last_used_at : Option ℕ
  pub orphan : Bool
  pub references : List Ref

-- for the days of retention, the time before which a worktree is old
pub record CleanupOptions : Type 0 where
  pub include_orphans : Bool
  pub retention_cutoff : ℕ
  pub max_per_tick : ℕ
  pub dry_run : Bool
  pub project_id : Option String

unfoldable pub is_protected_loop_status : String → Bool
is_protected_loop_status status =
    is_in status ("idle" ∷ "queued" ∷ "running" ∷ "waiting" ∷ "paused" ∷ [])

abbrev pub mentions : WorktreeRecord → Option String → Bool
mentions wt none = false
mentions wt (some text) = contains text wt.worktree_path || contains text wt.branch

unfoldable pub worktree_matches_loop : WorktreeRecord → LoopRecord → Bool
worktree_matches_loop wt l = l.project_id == wt.project_id && mentions wt l.metadata_json

unfoldable pub worktree_matches_run : WorktreeRecord → RunRecord → Bool
worktree_matches_run wt r = mentions wt r.checkpoint_json

unfoldable pub worktree_matches_queue : WorktreeRecord → QueueItemRecord → Bool
worktree_matches_queue wt q = mentions wt q.payload_json

-- what the loops over the references collect of a worktree
pub record Scan : Type 0 where
  pub orphan : Bool
  pub last_used_at : Option ℕ
  pub references : List Ref
  pub blocked : Bool
  pub block_reason : String

abbrev pub later : Option ℕ → Option ℕ → Option ℕ
later acc none = acc
later none (some t) = some t
later (some a) (some t) = if ltb a t then some t else some a

module _ (instant : Timestamp → Option ℕ) where
  unfoldable pub update_last_used : Timestamp → Option ℕ → Option ℕ
  update_last_used t acc = later acc (instant t)

  abbrev pub update_if_some : Option Timestamp → Option ℕ → Option ℕ
  update_if_some none acc = acc
  update_if_some (some t) acc = update_last_used t acc

  unfoldable pub scan_loop : WorktreeRecord → LoopRecord → Scan → Scan
  scan_loop wt l s =
      if worktree_matches_loop wt l
      then record {
        orphan = false;
        last_used_at = update_if_some l.last_run_at (update_last_used l.updated_at s.last_used_at);
        references = s.references ++ record { kind = "loop"; id = l.id; status = l.status } ∷ [];
        blocked = is_protected_loop_status l.status || s.blocked;
        block_reason =
            if is_protected_loop_status l.status
            then concat "referenced by protected loop status '" (concat l.status "'")
            else s.block_reason;
      }
      else s

  unfoldable pub scan_run : WorktreeRecord → RunRecord → Scan → Scan
  scan_run wt r s =
      if worktree_matches_run wt r
      then record {
        orphan = false;
        last_used_at =
            update_if_some r.ended_at
              (update_last_used r.started_at (update_last_used r.updated_at s.last_used_at));
        references = s.references ++ record { kind = "run"; id = r.id; status = r.status } ∷ [];
        blocked = r.status == "running" || s.blocked;
        block_reason =
            if r.status == "running" then "referenced by running run" else s.block_reason;
      }
      else s

  unfoldable pub scan_queue_item : WorktreeRecord → QueueItemRecord → Scan → Scan
  scan_queue_item wt q s =
      if is_active q && worktree_matches_queue wt q
      then record {
        orphan = false;
        last_used_at = update_last_used q.created_at (update_last_used q.updated_at s.last_used_at);
        references = s.references ++ record { kind = "queue"; id = q.id; status = q.status } ∷ [];
        blocked = true;
        block_reason = "referenced by active queue item";
      }
      else s

-- `for x in xs { … }`
unfoldable pub scan_all {ℓ} : {A : Type ℓ} → (A → Scan → Scan) → List A → Scan → Scan
scan_all f [] s = s
scan_all f (x ∷ xs) s = scan_all f xs (f x s)
