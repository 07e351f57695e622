-- ===== src/Scheduler/Failure.antt =====
-- crates/looper-scheduler/src/failure.rs: what a failure is, whether it is retried, and when.
-- `to_lowercase` of the standard library is a parameter, and an error is its text.
pub mod Classes
pub mod Delay
use looper_rust.Prelude.{
  ℕ, ◌*◌, ◌%◌, ◌^◌, String, ◌==◌, Bool, true, false, ◌&&◌, ◌||◌, Option, none, some, List, [], ◌∷◌,
  min, pos, ltb_ℤ, if◌then◌else◌,
}
use text.Mathlib.Text.{find?}
use looper_rust.Storage.Schema.{QueueItemRecord}

pub data FailureBoundary : Type 0 where
  git_remote git_local github_api model_provider agent_process local_worktree storage config
        checkpoint policy unknown :
      FailureBoundary

pub data QueueFailureKind : Type 0 where
  retryable_transient retryable_after_resume non_retryable manual_intervention : QueueFailureKind

unfoldable pub is_local_worktree : FailureBoundary → Bool
is_local_worktree local_worktree = true
is_local_worktree _ = false

unfoldable pub is_github_api : FailureBoundary → Bool
is_github_api github_api = true
is_github_api _ = false

unfoldable pub is_external_boundary : FailureBoundary → Bool
is_external_boundary git_remote = true
is_external_boundary github_api = true
is_external_boundary model_provider = true
is_external_boundary agent_process = true
is_external_boundary _ = false

unfoldable pub is_internal_deterministic_boundary : FailureBoundary → Bool
is_internal_deterministic_boundary git_local = true
is_internal_deterministic_boundary storage = true
is_internal_deterministic_boundary config = true
is_internal_deterministic_boundary checkpoint = true
is_internal_deterministic_boundary policy = true
is_internal_deterministic_boundary _ = false

-- `msg.contains(part)`
unfoldable pub contains : String → String → Bool
contains msg part = elim (find? msg part) [ none ↦ false | some _ ↦ true ]

unfoldable pub contains_any : String → List String → Bool
contains_any msg [] = false
contains_any msg (part ∷ parts) = contains msg part || contains_any msg parts

unfoldable pub is_manual_worktree_message : String → Bool
is_manual_worktree_message msg = contains_any msg (
    "worktree is dirty" ∷ "uncommitted changes" ∷ "local changes" ∷ "merge conflict"
    ∷ "dirty worktree" ∷ "manual intervention required" ∷ [])

unfoldable pub is_gql_unauthorized : String → Bool
is_gql_unauthorized msg =
    contains_any msg
      ("401" ∷ "unauthorized" ∷ "not authorized" ∷ "authentication failed" ∷ "bad credentials" ∷ [])

unfoldable pub is_deterministic_denial : String → Bool
is_deterministic_denial msg = contains_any msg (
    "not found" ∷ "does not exist" ∷ "access denied" ∷ "forbidden" ∷ "403" ∷ "404"
    ∷ "repository access blocked" ∷ "no such repository" ∷ [])

unfoldable pub is_http_4xx_denial : String → Bool
is_http_4xx_denial msg =
    contains_any msg ("400" ∷ "422" ∷ "validation failed" ∷ "unprocessable entity" ∷ [])

unfoldable pub classify_by_boundary :
    (String → String) → String → FailureBoundary → QueueFailureKind
classify_by_boundary to_lowercase err boundary =
    let msg = to_lowercase err in
    if is_manual_worktree_message msg || is_local_worktree boundary
    then manual_intervention
    else if is_github_api boundary && is_gql_unauthorized msg
    then retryable_transient
    else if is_deterministic_denial msg
    then non_retryable
    else if is_github_api boundary && is_http_4xx_denial msg
    then non_retryable
    else if is_internal_deterministic_boundary boundary
    then non_retryable
    else if is_external_boundary boundary
    then retryable_transient
    else non_retryable

unfoldable pub classify_failure : (String → String) → String → FailureBoundary → QueueFailureKind
classify_failure = classify_by_boundary

unfoldable pub should_retry_queue_item : QueueItemRecord → QueueFailureKind → Bool
should_retry_queue_item item retryable_transient = true
should_retry_queue_item item retryable_after_resume = true
should_retry_queue_item item non_retryable =
    ltb_ℤ item.max_attempts (pos 0) || ltb_ℤ item.attempts item.max_attempts
should_retry_queue_item item manual_intervention = false

-- Milliseconds. The arithmetic is that of `u64` as a release build does it: `2u64.pow(attempt)` and
-- the product wrap around.
abbrev pub u64 : ℕ → ℕ
u64 n = n % 2 ^ 64

unfoldable pub compute_retry_delay : ℕ → ℕ → ℕ
compute_retry_delay attempt base_delay_ms = min (u64 (base_delay_ms * u64 (2 ^ attempt))) 300_000

unfoldable pub step_boundary : String → String → FailureBoundary
step_boundary runner step =
    if runner == "planner"
    then (if step == "discover-issues"
        then github_api
        else if step == "prepare-worktree"
        then git_remote
        else if step == "write-spec"
        then model_provider
        else if step == "publish"
        then github_api
        else if step == "notify"
        then github_api
        else unknown)
    else if runner == "reviewer"
    then (if step == "review-pr"
        then github_api
        else if step == "check-worktree"
        then git_local
        else if step == "submit-review"
        then github_api
        else if step == "update-pr"
        then github_api
        else unknown)
    else if runner == "fixer"
    then (if step == "fix-pr"
        then github_api
        else if step == "prepare-worktree"
        then git_remote
        else if step == "commit-fix"
        then git_local
        else if step == "push-fix"
        then git_remote
        else unknown)
    else if runner == "worker"
    then (if step == "process-issue"
        then github_api
        else if step == "create-worktree"
        then git_remote
        else if step == "implement"
        then agent_process
        else if step == "commit-push"
        then git_remote
        else if step == "open-pr"
        then github_api
        else unknown)
    else unknown
