-- ===== src/Runner/MergeWatch.antt =====
-- crates/looper-runner/src/merge_watch.rs and its types in src/types.rs: what is to be done about a
-- pull request. Of its details and of a check (crates/looper-github/src/types.rs) the fields are
-- kept that are read; a field of a check that is absent, or no text, is `none`.
pub mod Verdicts
use looper_rust.Prelude.{
  ℕ, ◌-◌, String, ◌==◌, Bool, true, false, not, ◌&&◌, ◌||◌, Option, none, some, List, [], ◌∷◌, any,
  keep, filter_map, ltb, eqb, ℤ, if◌then◌else◌, concat,
}
use looper_rust.Storage.Schema.{is_in}

pub data ReviewDecision : Type 0 where
  approved changes_requested review_required dismissed : ReviewDecision

unfoldable pub from_github_string : String → Option ReviewDecision
from_github_string s =
    if s == "APPROVED"
    then some approved
    else if s == "CHANGES_REQUESTED"
    then some changes_requested
    else if s == "REVIEW_REQUIRED"
    then some review_required
    else if s == "DISMISSED"
    then some dismissed
    else none

pub record CheckRun : Type 0 where
  pub name : Option String
  pub status : Option String
  pub conclusion : Option String

pub record PullRequestDetail : Type 0 where
  pub number : ℤ
  pub title : String
  pub state : String
  pub merged_at : String
  pub review_decision : String
  pub mergeable : Option Bool
  pub mergeable_state : String
  pub head_sha : String
  pub checks : List CheckRun

pub record PriorWatchMarker : Type 0 where
  pub head_sha : String
  pub first_unknown_at : Option String
  pub review_decision : Option ReviewDecision

-- the range of the retries that remain
pub record RetryBudget : Type 0 where
  pub start : ℕ
  pub end : ℕ

unfoldable pub remaining : RetryBudget → ℕ
remaining b = b.end - b.start

-- the kinds of `WatchActionKind` that the classifier yields
pub data WatchActionKind : Type 0 where
  conflict red_ci mark_merged close_pr reengage_review merge_ready retry_check stuck :
      WatchActionKind

-- `snapshot` is always absent and `suggested_delay_secs` always 0
pub record WatchAction : Type 0 where
  pub kind : WatchActionKind
  pub pr_number : ℤ
  pub pr_title : String
  pub first_unknown_at : Option String
  pub deadline_exceeded : Bool
  pub retries_left : ℕ
  pub exhausted : Bool

abbrev pub text_in : Option String → List String → Bool
text_in none xs = false
text_in (some s) xs = is_in s xs

unfoldable pub is_failing : CheckRun → Bool
is_failing c =
    text_in c.conclusion
      ("failure" ∷ "cancelled" ∷ "timed_out" ∷ "action_required" ∷ "startup_failure" ∷ "stale" ∷ [])

unfoldable pub pr_has_failing_checks : PullRequestDetail → Bool
pr_has_failing_checks pr = any is_failing pr.checks

unfoldable pub pr_has_pending_checks : PullRequestDetail → Bool
pr_has_pending_checks pr =
    any (λ c. text_in c.status ("queued" ∷ "in_progress" ∷ "waiting" ∷ [])) pr.checks

unfoldable pub pr_failing_check_names : PullRequestDetail → List String
pr_failing_check_names pr = filter_map (λ c. c.name) (keep is_failing pr.checks)

-- the derived `==` on `Option<ReviewDecision>`
abbrev pub rank : Option ReviewDecision → ℕ
rank none = 0
rank (some approved) = 1
rank (some changes_requested) = 2
rank (some review_required) = 3
rank (some dismissed) = 4

abbrev pub same_decision : Option ReviewDecision → Option ReviewDecision → Bool
same_decision a b = eqb (rank a) (rank b)

unfoldable pub has_no_changes : PullRequestDetail → PriorWatchMarker → Bool
has_no_changes pr prior =
    pr.head_sha == prior.head_sha
    && same_decision (from_github_string pr.review_decision) prior.review_decision

-- `join(", ")`
unfoldable pub join : List String → String
join [] = ""
join (x ∷ []) = x
join (x ∷ y ∷ ys) = concat x (concat ", " (join (y ∷ ys)))

abbrev pub act : WatchActionKind → PullRequestDetail → String → WatchAction
act kind pr title = record {
  kind = kind;
  pr_number = pr.number;
  pr_title = title;
  first_unknown_at = none;
  deadline_exceeded = false;
  retries_left = 0;
  exhausted = false;
}

-- step 6, once the marker is known to be unchanged
abbrev pub retry_or_stuck : PullRequestDetail → PriorWatchMarker → Option RetryBudget → WatchAction
retry_or_stuck pr p none = record (act stuck pr pr.title) {
  first_unknown_at = p.first_unknown_at;
  deadline_exceeded = true;
  exhausted = true;
}
retry_or_stuck pr p (some b) =
    if ltb 0 (remaining b)
    then record (act retry_check pr pr.title) {
      first_unknown_at = p.first_unknown_at;
      retries_left = remaining b - 1;
    }
    else record (act stuck pr pr.title) {
      first_unknown_at = p.first_unknown_at;
      deadline_exceeded = true;
      exhausted = true;
    }

abbrev pub unchanged_action :
    PullRequestDetail → Option PriorWatchMarker → Option RetryBudget → Option WatchAction
unchanged_action pr none budget = none
unchanged_action pr (some p) budget =
    if has_no_changes pr p then some (retry_or_stuck pr p budget) else none

abbrev pub is_true : Option Bool → Bool
is_true none = false
is_true (some b) = b

abbrev pub red_title : PullRequestDetail → String
red_title pr =
    concat pr.title (concat " (failing checks: " (concat (join (pr_failing_check_names pr)) ")"))

unfoldable pub classify_pr :
    PullRequestDetail → Option PriorWatchMarker → Option RetryBudget → Option WatchAction
classify_pr pr prior budget =
    let decision = from_github_string pr.review_decision in
    if pr.state == "closed" && not (pr.merged_at == "")
    then some (act mark_merged pr pr.title)
    else if pr.state == "closed"
    then some (act close_pr pr pr.title)
    else if same_decision decision (some changes_requested)
    then some (act reengage_review pr pr.title)
    else if is_true pr.mergeable && same_decision decision (some approved)
    then (if pr_has_failing_checks pr
        then some (act red_ci pr (red_title pr))
        else if pr_has_pending_checks pr
        then none
        else some (act merge_ready pr pr.title))
    else if pr_has_failing_checks pr
    then some (act red_ci pr pr.title)
    else if pr.mergeable_state == "dirty"
    then some (act conflict pr pr.title)
    else unchanged_action pr prior budget
