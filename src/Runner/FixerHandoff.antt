-- ===== src/Runner/FixerHandoff.antt =====
-- crates/looper-runner/src/fixer_handoff.rs. The time of a call and the ids that `Uuid::new_v4` draws
-- are arguments. The text of a number, and that of a JSON object of texts, are parameters.
pub mod Deduped
use looper_rust.Prelude.{
  ℤ, pos, eqb_ℤ, String, ◌==◌, Bool, true, false, not, ◌&&◌, Option, none, some, List, [], ◌∷◌,
  concat, if◌then◌else◌,
}
use looper_rust.Storage.Schema.{Timestamp, QueueItemRecord, LoopRecord, is_in}
use looper_rust.Storage.Sql.{sql_eq}
use looper_rust.Storage.Loops
use looper_rust.Storage.Loops.{find_loop}
use looper_rust.Storage.Insert.{create_or_get_active_by_dedupe}
use looper_rust.Service.Outcome.{Service, ◌>>=◌, ◌>>◌, return, reads, statement, writes}
use looper_rust.Service.Loops.{allocate_seq}

pub record FixerEnqueueContext : Type 0 where
  pub has_criteria_issues : Bool
  pub review_decision : Option String
  pub has_failing_required_checks : Bool

pub data EnqueueDecision : Type 0 where
  enqueue skip : String → EnqueueDecision

unfoldable pub should_enqueue : EnqueueDecision → Bool
should_enqueue (enqueue reason) = true
should_enqueue (skip reason) = false

unfoldable pub reason : EnqueueDecision → String
reason (enqueue r) = r
reason (skip r) = r

unfoldable pub should_enqueue_fixer : FixerEnqueueContext → EnqueueDecision
should_enqueue_fixer ctx =
    if ctx.has_criteria_issues
    then enqueue "criteria_issues"
    else if sql_eq ctx.review_decision "CHANGES_REQUESTED"
    then enqueue "changes_requested"
    else if ctx.has_failing_required_checks
    then enqueue "failing_required_checks"
    else skip "clean_review"

pub record FixerEnqueueResult : Type 0 where
  pub queue_item : QueueItemRecord
  pub is_new : Bool
  pub loop_id : String
  pub dedupe_key : String

abbrev pub terminal_loop_statuses : List String
terminal_loop_statuses = "completed" ∷ "failed" ∷ "cancelled" ∷ "terminated" ∷ []

abbrev pub is_pr : ℤ → Option ℤ → Bool
is_pr n none = false
is_pr n (some m) = eqb_ℤ m n

abbrev pub is_open_fixer : String → ℤ → LoopRecord → Bool
is_open_fixer project_id pr_number l =
    l.project_id == project_id
    && (l.type == "fixer"
        && (is_pr pr_number l.pr_number && not (is_in l.status terminal_loop_statuses)))

unfoldable pub fixer_dedupe_key : (ℤ → String) → String → ℤ → String
fixer_dedupe_key to_string project_id pr_number =
    concat "fixer-" (concat project_id (concat "-pr-" (to_string pr_number)))

module _ (to_string : ℤ → String) (to_json : List (String × String) → String) where
  abbrev pub origin : String → String
  origin why = to_json (("enqueued_from", "reviewer_publish") ∷ ("reason", why) ∷ [])

  abbrev pub fixer_loop : String → Option String → ℤ → String → Timestamp → String → ℤ → LoopRecord
  fixer_loop project_id repo pr_number why now id seq = record {
    id = id;
    seq = seq;
    project_id = project_id;
    type = "fixer";
    target_type = "pull_request";
    target_id = some (to_string pr_number);
    repo = repo;
    pr_number = some pr_number;
    status = "queued";
    config_json = none;
    metadata_json = some (origin why);
    last_run_at = none;
    next_run_at = none;
    created_at = now;
    updated_at = now;
  }

  unfoldable pub new_fixer_loop :
      String → Option String → ℤ → String → Timestamp → String → Service String
  new_fixer_loop project_id repo pr_number why now id = do
    seq ← allocate_seq
    writes (Loops.upsert (fixer_loop project_id repo pr_number why now id seq))
    return id

  -- the id of an open fixer loop of the pull request, or of a new one
  unfoldable pub fixer_loop_id :
      String → Option String → ℤ → String → Timestamp → String → Service String
  fixer_loop_id project_id repo pr_number why now id db =
      elim (find_loop (is_open_fixer project_id pr_number) (Loops.list db)) [
        | some l ↦ return l.id db
        | none ↦ new_fixer_loop project_id repo pr_number why now id db
      ]

  abbrev pub fixer_item :
      String → Option String → ℤ → String → Timestamp → String → String → QueueItemRecord
  fixer_item project_id repo pr_number why now loop_id id = record {
    id = id;
    project_id = some project_id;
    loop_id = some loop_id;
    type = "fixer";
    target_type = "pull_request";
    target_id = to_string pr_number;
    repo = repo;
    pr_number = some pr_number;
    dedupe_key = fixer_dedupe_key to_string project_id pr_number;
    priority = pos 2;
    status = "queued";
    available_at = now;
    attempts = pos 0;
    max_attempts = pos 3;
    claimed_by = none;
    claimed_at = none;
    started_at = none;
    finished_at = none;
    lock_key = none;
    payload_json = some (origin why);
    last_error = none;
    last_error_kind = none;
    created_at = now;
    updated_at = now;
  }

  -- the text of an error is the error
  unfoldable pub ensure_fixer_queue_item :
      String → Option String → ℤ → String → Timestamp → String → String → Service FixerEnqueueResult
  ensure_fixer_queue_item project_id repo pr_number why now new_loop_id item_id = do
    loop_id ← fixer_loop_id project_id repo pr_number why now new_loop_id
    item ← statement (
        create_or_get_active_by_dedupe
          (fixer_item project_id repo pr_number why now loop_id item_id))
    return (record {
      queue_item = item.0;
      is_new = item.1;
      loop_id = loop_id;
      dedupe_key = fixer_dedupe_key to_string project_id pr_number;
    })
