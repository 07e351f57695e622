-- ===== src/Tests/Watch.antt =====
-- Pull requests under watch.
use looper_rust.Prelude.{◌==◌, ◌≡◌, ◌↔◌, refl, true, false, none, some, [], pos}
use looper_rust.Runner.MergeWatch.{
  PullRequestDetail, PriorWatchMarker, approved, merge_ready, stuck, classify_pr,
  from_github_string, pr_has_failing_checks, pr_has_pending_checks, has_no_changes, remaining,
}
use looper_rust.Runner.MergeWatch.Verdicts.{IsOf, merge_ready_iff}

abbrev good : PullRequestDetail
good = record {
  number = pos 4;
  title = "t";
  state = "open";
  merged_at = "";
  review_decision = "APPROVED";
  mergeable = some true;
  mergeable_state = "clean";
  head_sha = "abc";
  checks = [];
}

abbrev slow : PullRequestDetail
slow = record good { mergeable = none }

abbrev marker : PriorWatchMarker
marker = record { head_sha = "abc"; first_unknown_at = none; review_decision = some approved }

good_runs : IsOf merge_ready (classify_pr good none none)
unfolding classify_pr from_github_string pr_has_failing_checks pr_has_pending_checks
good_runs = refl

slow_runs : IsOf stuck (classify_pr slow (some marker) (some (record { start = 0; end = 0 })))
unfolding classify_pr from_github_string pr_has_failing_checks has_no_changes remaining
slow_runs = refl

merge_ready_iff_example : IsOf merge_ready (classify_pr good none none) ↔ (
    ((good.state == "closed") ≡ false)
    × (good.mergeable ≡ some true)
    × (good.review_decision ≡ "APPROVED")
    × (pr_has_failing_checks good ≡ false)
    × (pr_has_pending_checks good ≡ false))
merge_ready_iff_example = merge_ready_iff good none none
