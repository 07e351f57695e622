-- ===== src/Service/Loops/Policy.antt =====
-- The policy helpers of crates/looper-service/src/loop_service.rs; `str::trim` is a parameter.
use looper_rust.Prelude.{
  String, ◌==◌, Bool, false, not, ◌&&◌, ◌||◌, Option, none, some, [], ◌∷◌, if◌then◌else◌,
}
use looper_rust.Storage.Schema.{is_in}

abbrev pub by_failure_kind : String → String
by_failure_kind kind =
    if kind == "retryable_after_resume"
    then "advance_from_checkpoint"
    else if kind == "manual_intervention"
    then "manual_intervention"
    else "replay_step"

abbrev pub known_policy : String → String
known_policy policy =
    if is_in policy (
      "advance_from_checkpoint" ∷ "manual_intervention" ∷ "replay_step" ∷ "restart_from_discover"
      ∷ "rerun_review" ∷ "retry_from_timeout_context" ∷ [])
    then policy
    else "replay_step"

module _ (trim : String → String) where
  unfoldable pub normalize_resume_policy : String → Option String → String
  normalize_resume_policy failure_kind none = by_failure_kind failure_kind
  normalize_resume_policy failure_kind (some policy) =
      if trim policy == "" then by_failure_kind failure_kind else known_policy (trim policy)

  unfoldable pub suppresses_autonomous_recovery : String → String → Bool
  suppresses_autonomous_recovery failure_kind resume_policy =
      trim resume_policy == "manual_intervention" || trim failure_kind == "manual_intervention"

  unfoldable pub should_restart_from_discover : String → String → Bool
  should_restart_from_discover status resume_policy =
      if not (status == "failed") && not (status == "interrupted")
      then false
      else trim resume_policy == "restart_from_discover"
