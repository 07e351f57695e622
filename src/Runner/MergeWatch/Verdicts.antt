-- ===== src/Runner/MergeWatch/Verdicts.antt =====
-- When crates/looper-runner/src/merge_watch.rs lets a pull request be merged, and when it gives up.
use looper_rust.Prelude.{
  String, ◌==◌, eq_iff, ◌≡◌, ◌↔◌, refl, Bool, true, false, not, ◌&&◌, Option, none, some, leb,
  Bool-cases, inl, inr, arith,
}
use looper_rust.Runner.MergeWatch.{
  approved, changes_requested, from_github_string, PullRequestDetail, PriorWatchMarker, RetryBudget,
  remaining, WatchActionKind, merge_ready, stuck, WatchAction, pr_has_failing_checks,
  pr_has_pending_checks, has_no_changes, same_decision, is_true, classify_pr, unchanged_action,
}

-- an action of a kind
abbrev pub IsOf : WatchActionKind → Option WatchAction → Type 0
IsOf k none = ⊥
IsOf k (some a) = a.kind ≡ k

-- the decision `approved` is read from one text
approved_exact :
    (s : String) → same_decision (from_github_string s) (some approved) ≡ (s == "APPROVED")
unfolding from_github_string
approved_exact s = ground arith

changes_exact :
    (s : String)
    → (s == "APPROVED") ≡ true
    → same_decision (from_github_string s) (some changes_requested) ≡ false
unfolding from_github_string
changes_exact s h = ground arith

-- what is seen of an unchanged pull request is never that it may be merged
unchanged-kind :
    (pr : PullRequestDetail) (prior : Option PriorWatchMarker) (budget : Option RetryBudget)
    → ¬ IsOf merge_ready (unchanged_action pr prior budget)
unchanged-kind pr none budget h = h
unchanged-kind pr (some p) none h = ground arith
unchanged-kind pr (some p) (some b) h = ground arith

-- A pull request is reported as ready to merge exactly when it is not closed, is mergeable and
-- approved, and no check fails or is pending, whatever was seen of it before.
pub merge_ready_iff :
    (pr : PullRequestDetail) (prior : Option PriorWatchMarker) (budget : Option RetryBudget)
    → IsOf merge_ready (classify_pr pr prior budget) ↔ (
        ((pr.state == "closed") ≡ false)
        × (pr.mergeable ≡ some true)
        × (pr.review_decision ≡ "APPROVED")
        × (pr_has_failing_checks pr ≡ false)
        × (pr_has_pending_checks pr ≡ false))
unfolding classify_pr
merge_ready_iff pr prior budget = (
  λ h. ground (
    arith,
    approved_exact pr.review_decision,
    unchanged-kind pr prior budget,
    eq_iff pr.review_decision "APPROVED",
  ),
  λ h. ground (
    arith,
    approved_exact pr.review_decision,
    changes_exact pr.review_decision,
    eq_iff pr.review_decision "APPROVED",
  ),
)

-- nothing is to be done about the pull request itself
abbrev pub is_waiting : PullRequestDetail → Bool
is_waiting pr =
    not (pr.state == "closed")
    && (not (pr.review_decision == "CHANGES_REQUESTED")
        && (not (is_true pr.mergeable && pr.review_decision == "APPROVED")
            && (not (pr_has_failing_checks pr) && not (pr.mergeable_state == "dirty"))))

abbrev pub is_unchanged : PullRequestDetail → Option PriorWatchMarker → Bool
is_unchanged pr none = false
is_unchanged pr (some p) = has_no_changes pr p

abbrev pub is_spent : Option RetryBudget → Bool
is_spent none = true
is_spent (some b) = leb b.end b.start

changes_read :
    (s : String)
    → same_decision (from_github_string s) (some changes_requested) ≡ (s == "CHANGES_REQUESTED")
unfolding from_github_string
changes_read s = elim (Bool-cases (s == "APPROVED")) [
  | inl e ↦ rw ((eq_iff s "APPROVED").0 e) refl
  | inr e ↦ rw e (ground arith)
]

unchanged-stuck :
    (pr : PullRequestDetail) (prior : Option PriorWatchMarker) (budget : Option RetryBudget)
    → IsOf stuck (unchanged_action pr prior budget)
      ↔ ((is_unchanged pr prior && is_spent budget) ≡ true)
unfolding remaining
unchanged-stuck pr none budget = ground arith
unchanged-stuck pr (some p) none = ground arith
unchanged-stuck pr (some p) (some b) = ground arith

-- A pull request is given up as stuck exactly when nothing is to be done about it, it has not
-- changed since the marker of the last look, and no retry is left, or no budget is given.
pub stuck_iff :
    (pr : PullRequestDetail) (prior : Option PriorWatchMarker) (budget : Option RetryBudget)
    → IsOf stuck (classify_pr pr prior budget)
      ↔ ((is_waiting pr && (is_unchanged pr prior && is_spent budget)) ≡ true)
unfolding classify_pr
stuck_iff pr prior budget = ground (
  arith,
  approved_exact pr.review_decision,
  changes_read pr.review_decision,
  unchanged-stuck pr prior budget,
)
