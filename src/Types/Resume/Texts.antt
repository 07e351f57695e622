-- ===== src/Types/Resume/Texts.antt =====
-- The texts of crates/looper-types/src/failure.rs and src/resume.rs, and what a failure suspends.
use looper_rust.Prelude.{String, eq_iff, ◌≡◌, ◌↔◌, refl, arith}
use looper_rust.Types.Resume.{
  FailureKind, ResumePolicy, ok, retryable_transient, retryable_after_resume, non_retryable,
  manual_intervention, advance_from_checkpoint, manual, replay_step, restart_from_discover,
  rerun_review, retry_from_timeout_context, failure_text, parse_failure, resume_text, parse_resume,
}

parse_failure-failure_text : (k : FailureKind) → parse_failure (failure_text k) ≡ ok k
unfolding parse_failure failure_text
parse_failure-failure_text retryable_transient = refl
parse_failure-failure_text retryable_after_resume = refl
parse_failure-failure_text non_retryable = refl
parse_failure-failure_text manual_intervention = refl

failure_text-parse_failure :
    (t : String) (k : FailureKind) → parse_failure t ≡ ok k → failure_text k ≡ t
unfolding parse_failure failure_text
failure_text-parse_failure t k h = ground (
  arith,
  eq_iff t "retryable_transient",
  eq_iff t "retryable_after_resume",
  eq_iff t "non_retryable",
  eq_iff t "manual_intervention",
)

-- A text is read as a kind of failure exactly when it is the text of that kind.
pub failure_text_exact :
    (t : String) (k : FailureKind) → (parse_failure t ≡ ok k) ↔ (failure_text k ≡ t)
failure_text_exact t k =
    (failure_text-parse_failure t k, λ e. rw (← e) (parse_failure-failure_text k))

parse_resume-resume_text : (k : ResumePolicy) → parse_resume (resume_text k) ≡ ok k
unfolding parse_resume resume_text
parse_resume-resume_text advance_from_checkpoint = refl
parse_resume-resume_text manual = refl
parse_resume-resume_text replay_step = refl
parse_resume-resume_text restart_from_discover = refl
parse_resume-resume_text rerun_review = refl
parse_resume-resume_text retry_from_timeout_context = refl

resume_text-parse_resume :
    (t : String) (k : ResumePolicy) → parse_resume t ≡ ok k → resume_text k ≡ t
unfolding parse_resume resume_text
resume_text-parse_resume t k h = ground (
  arith,
  eq_iff t "advance_from_checkpoint",
  eq_iff t "manual_intervention",
  eq_iff t "replay_step",
  eq_iff t "restart_from_discover",
  eq_iff t "rerun_review",
  eq_iff t "retry_from_timeout_context",
)

-- A text is read as a resume policy exactly when it is the text of that policy.
pub resume_text_exact :
    (t : String) (k : ResumePolicy) → (parse_resume t ≡ ok k) ↔ (resume_text k ≡ t)
resume_text_exact t k = (resume_text-parse_resume t k, λ e. rw (← e) (parse_resume-resume_text k))
