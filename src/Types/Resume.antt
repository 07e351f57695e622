-- ===== src/Types/Resume.antt =====
-- crates/looper-types/src/failure.rs and src/resume.rs: the kinds of failures, and how a loop is
-- recovered after one.
pub mod Texts
use looper_rust.Prelude.{String, ◌==◌, Bool, true, false, if◌then◌else◌}

pub data FailureKind : Type 0 where
  retryable_transient retryable_after_resume non_retryable manual_intervention : FailureKind

-- `manual` is `ResumePolicy::ManualIntervention`
pub data ResumePolicy : Type 0 where
  advance_from_checkpoint manual replay_step restart_from_discover rerun_review
        retry_from_timeout_context :
      ResumePolicy

-- what reading a text yields; the error carries the text
pub data Parsed {ℓ} (A : Type ℓ) : Type ℓ where
  ok : A → Parsed A
  unknown : String → Parsed A

unfoldable pub failure_text : FailureKind → String
failure_text retryable_transient = "retryable_transient"
failure_text retryable_after_resume = "retryable_after_resume"
failure_text non_retryable = "non_retryable"
failure_text manual_intervention = "manual_intervention"

unfoldable pub parse_failure : String → Parsed FailureKind
parse_failure s =
    if s == "retryable_transient"
    then ok retryable_transient
    else if s == "retryable_after_resume"
    then ok retryable_after_resume
    else if s == "non_retryable"
    then ok non_retryable
    else if s == "manual_intervention"
    then ok manual_intervention
    else unknown s

unfoldable pub resume_text : ResumePolicy → String
resume_text advance_from_checkpoint = "advance_from_checkpoint"
resume_text manual = "manual_intervention"
resume_text replay_step = "replay_step"
resume_text restart_from_discover = "restart_from_discover"
resume_text rerun_review = "rerun_review"
resume_text retry_from_timeout_context = "retry_from_timeout_context"

unfoldable pub parse_resume : String → Parsed ResumePolicy
parse_resume s =
    if s == "advance_from_checkpoint"
    then ok advance_from_checkpoint
    else if s == "manual_intervention"
    then ok manual
    else if s == "replay_step"
    then ok replay_step
    else if s == "restart_from_discover"
    then ok restart_from_discover
    else if s == "rerun_review"
    then ok rerun_review
    else if s == "retry_from_timeout_context"
    then ok retry_from_timeout_context
    else unknown s

unfoldable pub suppresses_autonomous_recovery : ResumePolicy → Bool
suppresses_autonomous_recovery manual = true
suppresses_autonomous_recovery _ = false

unfoldable pub should_restart_from_discover : ResumePolicy → Bool
should_restart_from_discover restart_from_discover = true
should_restart_from_discover _ = false

unfoldable pub is_manual_hold : ResumePolicy → Bool
is_manual_hold manual = true
is_manual_hold advance_from_checkpoint = true
is_manual_hold _ = false

-- `From<FailureKind> for ResumePolicy`
unfoldable pub from_failure : FailureKind → ResumePolicy
from_failure retryable_transient = retry_from_timeout_context
from_failure retryable_after_resume = advance_from_checkpoint
from_failure non_retryable = manual
from_failure manual_intervention = manual
