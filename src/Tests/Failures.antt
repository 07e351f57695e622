-- ===== src/Tests/Failures.antt =====
-- Failure classes and retry delays.
use looper_rust.Prelude.{◌≡◌, ◌≤◌, refl, String, arith}
use looper_rust.Scheduler.Failure.{
  github_api, retryable_transient, classify_failure, is_manual_worktree_message,
  is_gql_unauthorized, compute_retry_delay, contains, contains_any, classify_by_boundary,
  is_local_worktree, is_github_api,
}
use looper_rust.Scheduler.Failure.Delay.{delay_exact, delay_vanishes}

abbrev same : String → String
same s = s

-- a missing authorisation is worth another try, although 403 is a denial
gql_403 : classify_failure same "401 or 403" github_api ≡ retryable_transient
unfolding classify_failure classify_by_boundary is_manual_worktree_message contains_any contains
    is_gql_unauthorized is_local_worktree is_github_api
gql_403 = refl

delay_exact_example :
    (compute_retry_delay 3 1000 ≡ 8000) × (compute_retry_delay 3 1000 ≤ compute_retry_delay 4 1000)
delay_exact_example = delay_exact 3 1000 (omega arith)

delay_vanishes_example : compute_retry_delay 70 1000 ≡ 0
delay_vanishes_example = delay_vanishes 70 1000 (omega arith)
