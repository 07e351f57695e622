-- ===== src/Scheduler/Failure/Classes.antt =====
-- Which failures of crates/looper-scheduler/src/failure.rs fall into which class.
use looper_rust.Prelude.{String, ◌≡◌, ◌≢◌, ◌↔◌, ◌⊎◌, true, false, arith}
use looper_rust.Scheduler.Failure.{
  FailureBoundary, local_worktree, github_api, retryable_transient, retryable_after_resume,
  manual_intervention, is_local_worktree, is_github_api, is_external_boundary,
  is_internal_deterministic_boundary, is_manual_worktree_message, is_gql_unauthorized,
  is_deterministic_denial, is_http_4xx_denial, classify_by_boundary, classify_failure,
}

module _ (lower : String → String) (err : String) (boundary : FailureBoundary) where
  -- A failure needs a person exactly when its message says that a worktree is dirty or in conflict,
  -- or when it happened at the local worktree, whatever else the message says.
  pub manual_iff :
      (classify_failure lower err boundary ≡ manual_intervention)
      ↔ ((is_manual_worktree_message (lower err) ≡ true) ⊎ (boundary ≡ local_worktree))
  unfolding classify_failure classify_by_boundary is_local_worktree
  manual_iff = (λ h. ground arith, λ h. ground arith)

  -- A failure is transient exactly when it needs no person, happened at an external boundary, and
  -- its message is no denial; at the GitHub API a message of missing authorisation outweighs a
  -- denial, and a 400 or 422 counts as one.
  pub transient_iff : (classify_failure lower err boundary ≡ retryable_transient) ↔ (
      (is_manual_worktree_message (lower err) ≡ false)
      × (is_external_boundary boundary ≡ true)
      × ((boundary ≡ github_api) × (is_gql_unauthorized (lower err) ≡ true)
          ⊎ (is_deterministic_denial (lower err) ≡ false)
            × (boundary ≡ github_api → is_http_4xx_denial (lower err) ≡ false)))
  unfolding classify_failure classify_by_boundary is_local_worktree is_github_api
      is_external_boundary is_internal_deterministic_boundary
  transient_iff = (λ h. ground arith, λ h. ground arith)

  -- No failure is classified as one to be retried after a resume.
  never_after_resume : classify_failure lower err boundary ≢ retryable_after_resume
  unfolding classify_failure classify_by_boundary
  never_after_resume h = ground arith
