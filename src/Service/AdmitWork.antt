-- ===== src/Service/AdmitWork.antt =====
-- crates/looper-service/src/admit_work.rs. The time of a call and the ids that `new_event_id` draws
-- are arguments, and the libraries are a parameter.
pub mod Admit
pub mod Reused
pub mod Twice
use looper_rust.Prelude.{
  ℕ, ℤ, pos, ltb_ℤ, eqb_ℤ, String, ◌==◌, Bool, true, false, not, ◌&&◌, ◌||◌, Option, none, some,
  List, [], ◌∷◌, any, concat, if◌then◌else◌,
}
use looper_rust.Storage.Schema.{Timestamp, QueueItemRecord, LoopRecord, ProjectRecord, is_in}
use looper_rust.Storage.Sql.{sql_eq}
use looper_rust.Storage.Loops
use looper_rust.Storage.Loops.{find_loop}
use looper_rust.Storage.Projects
use looper_rust.Storage.Insert.{create_or_get_active_by_dedupe}
use looper_rust.Types.Domain
use looper_rust.Types.LoopStatus
use looper_rust.Types.LoopStatus.{queued}
use looper_rust.Types.LoopType
use looper_rust.Types.LoopType.{LoopType, planner, reviewer, worker, fixer, supports_target_type}
use looper_rust.Types.LoopTarget
use looper_rust.Types.LoopTarget.{
  LoopTarget, LoopTargetType, issue, pull_request, unwrap_or, loop_target_key,
}
use looper_rust.Service.Outcome.{
  Result, ok, err, Service, project_not_found, active_loop_conflict, cannot_target, invalid_role,
  number_required, not_positive, ◌>>=◌, ◌>>◌, return, guard, or_fail, lift, reads, statement,
  writes,
}
use looper_rust.Service.Loops.{allocate_seq}
use looper_rust.Service.Library.{Library}
use looper_rust.Service.Repo.{normalize_repo_spec, resolve_project_repo}

pub record AdmitWorkInput (Json : Type 0) : Type 0 where
  pub project_id : String
  pub role : String
  pub issue_number : Option ℤ
  pub pr_number : Option ℤ
  pub repo : Option String
  pub priority : Option ℤ
  pub metadata : Option Json

pub record AdmitWorkResult : Type 0 where
  pub loop_record : LoopRecord
  pub queue_item : QueueItemRecord
  pub created_new_loop : Bool

-- the loop target, and what the queue item says of it
pub record RoleTarget : Type 0 where
  pub loop_target : LoopTarget
  pub queue_target_type : String
  pub queue_target_id : String
  pub pr_number : Option ℤ
  pub dedupe_key : String

unfoldable pub default_priority : LoopType → ℤ
default_priority planner = pos 10
default_priority reviewer = pos 1
default_priority worker = pos 50
default_priority fixer = pos 2

unfoldable pub is_active_loop_status : String → Bool
is_active_loop_status s =
    is_in s ("idle" ∷ "queued" ∷ "running" ∷ "paused" ∷ "waiting" ∷ "active" ∷ [])

unfoldable pub require_positive : String → Option ℤ → Result ℤ
require_positive field none = err (number_required field)
require_positive field (some n) = if ltb_ℤ (pos 0) n then ok n else err (not_positive field)

abbrev pub is_number : Option ℤ → ℤ → Bool
is_number none n = false
is_number (some m) n = eqb_ℤ m n

-- `if let Some(n) = pr_number { if l.pr_number == Some(n) { … } }`
abbrev pub has_pr_number : Option ℤ → LoopRecord → Bool
has_pr_number none l = false
has_pr_number (some n) l = is_number l.pr_number n

abbrev pub with_target : Result ℤ → (ℤ → RoleTarget) → Result RoleTarget
with_target (ok n) f = ok (f n)
with_target (err e) f = err e

module _ {Json : Type 0} (lib : Library Json) where
  unfoldable pub parse_role : String → Result LoopType
  parse_role role =
      let s = lib.trim role in
      if s == "" then err (invalid_role s) else known s (LoopType.from_str s)
    where
      known : String → Domain.Parsed LoopType → Result LoopType
      known s (Domain.ok t) = ok t
      known s (Domain.err e) = err (invalid_role s)

  abbrev pub target_of : LoopTargetType → String → ℤ → LoopTarget
  target_of target_type repo n = record {
    target_type = target_type;
    project_id = none;
    repo = some repo;
    number = some n;
  }

  -- `{role}-{project_id}-issue-{n}` or `{role}-{project_id}-pr-{n}`
  abbrev pub dedupe : LoopType → String → String → ℤ → String
  dedupe role project_id kind n =
      concat (LoopType.as_str role) (concat "-" (concat project_id (concat kind (lib.to_string n))))

  abbrev pub of_issue : LoopType → String → String → ℤ → RoleTarget
  of_issue role project_id repo n = record {
    loop_target = target_of issue repo n;
    queue_target_type = "issue";
    queue_target_id = lib.to_string n;
    pr_number = none;
    dedupe_key = dedupe role project_id "-issue-" n;
  }

  abbrev pub of_pull_request : LoopType → String → String → ℤ → RoleTarget
  of_pull_request role project_id repo n = record {
    loop_target = target_of pull_request repo n;
    queue_target_type = "pull_request";
    queue_target_id = lib.to_string n;
    pr_number = some n;
    dedupe_key = dedupe role project_id "-pr-" n;
  }

  abbrev pub worker_target : String → String → Option ℤ → Option ℤ → Result RoleTarget
  worker_target project_id repo issue_number (some n) =
      with_target (require_positive "pr_number" (some n)) (of_pull_request worker project_id repo)
  worker_target project_id repo (some n) none =
      with_target (require_positive "issue_number" (some n)) (of_issue worker project_id repo)
  worker_target project_id repo none none = err (number_required "issue_number or pr_number")

  unfoldable pub resolve_role_target :
      LoopType → String → String → Option ℤ → Option ℤ → Result RoleTarget
  resolve_role_target planner project_id repo issue_number pr_number =
      with_target (require_positive "issue_number" issue_number) (of_issue planner project_id repo)
  resolve_role_target reviewer project_id repo issue_number pr_number =
      with_target (require_positive "pr_number" pr_number)
        (of_pull_request reviewer project_id repo)
  resolve_role_target fixer project_id repo issue_number pr_number =
      with_target (require_positive "pr_number" pr_number) (of_pull_request fixer project_id repo)
  resolve_role_target worker project_id repo issue_number pr_number =
      worker_target project_id repo issue_number pr_number
