-- ===== src/Tests/Graphs.antt =====
-- The dependency graph of a small snapshot.
use looper_rust.Prelude.{String, ◌≡◌, refl, [], ◌∷◌, pos, any, ltb_ℤ, ◌&&◌, if◌then◌else◌}
use looper_rust.Storage.Sql.{order_by, insert_ordered}
use looper_rust.Runner.Depgraph.{
  IssueRef, IssueState, Snapshot, same, build, blockers_of, normalize, dependencies,
  normalize_blocked_by, get_entry, new_blocker, unique_sorted_refs, add_issues, refs_from_set,
  add_positive, add_issue, check_deps, push_deps, push_entry, normalize_issue_states, insert_entry,
  classify_blocker_state,
}
use looper_rust.Runner.Depgraph.Ready.{build-blockers_of, blocked}
use looper_rust.Runner.Depgraph.Dependencies.{dependencies_exact}

-- texts that need no cleaning
abbrev pub as_is : String → String
as_is s = s

abbrev pub issue_1 : IssueRef
issue_1 = record { repo = "a/b"; number = pos 1 }

abbrev pub issue_2 : IssueRef
issue_2 = record { repo = "a/b"; number = pos 2 }

abbrev done : IssueState
done = record { state = "closed"; state_reason = "completed" }

abbrev open_state : IssueState
open_state = record { state = "open"; state_reason = "" }

abbrev one_waits : Snapshot
one_waits = record {
  blocked_by = (issue_1, issue_2 ∷ []) ∷ [];
  issues = (issue_1, open_state) ∷ (issue_2, open_state) ∷ [];
  unreachable = [];
}

-- the second issue is ready, and the first waits for it
graph_runs :
    (build as_is as_is (issue_2 ∷ issue_1 ∷ issue_2 ∷ []) one_waits).ready_set ≡ issue_2 ∷ []
unfolding build add_issues unique_sorted_refs refs_from_set order_by insert_ordered add_positive
    normalize same add_issue check_deps get_entry normalize_blocked_by push_deps push_entry
    new_blocker normalize_issue_states insert_entry classify_blocker_state
graph_runs = refl

dependencies_exact_example :
    any
      (same issue_2)
      (dependencies as_is as_is (normalize_blocked_by as_is as_is one_waits.blocked_by []) issue_1)
    ≡ any
        (λ e.
          ltb_ℤ (pos 0) e.0.number
          && (same (normalize as_is as_is e.0) issue_1
              && any (λ d. ltb_ℤ (pos 0) d.number && same issue_2 (normalize as_is as_is d)) e.1))
        one_waits.blocked_by
dependencies_exact_example =
    dependencies_exact as_is as_is (λ s. refl) one_waits.blocked_by issue_1 issue_2

build-blockers_of_example :
    blockers_of as_is as_is (build as_is as_is (issue_1 ∷ issue_2 ∷ []) one_waits) issue_1 ≡ (
      if any
        (same (normalize as_is as_is issue_1))
        (unique_sorted_refs as_is as_is (issue_1 ∷ issue_2 ∷ []))
      then blocked as_is as_is one_waits (normalize as_is as_is issue_1)
      else [])
build-blockers_of_example = build-blockers_of as_is as_is (issue_1 ∷ issue_2 ∷ []) one_waits issue_1
