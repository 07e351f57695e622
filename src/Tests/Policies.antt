-- ===== src/Tests/Policies.antt =====
-- Two nodes and the labels of a pull request.
use looper_rust.Prelude.{String, ◌≡◌, refl, true, List, [], ◌∷◌, pos, strip_prefix}
use looper_rust.Net.Policy.{
  routed, GitHubIdentity, ProjectPolicy, parse_target_label, match_local_identity, evaluate_worker,
  evaluate_reviewer, labels_need_target_adjustment, by_targets,
}
use looper_rust.Net.Policy.Routed.{one_node_takes, labels_need_target_adjustment_always}

abbrev as_is : String → String
as_is s = s

abbrev ann : GitHubIdentity
ann = record { numeric_id = pos 7; login = "ann" }

abbrev node_of_ann : ProjectPolicy
node_of_ann = record {
  mode = routed;
  node_name = "n1";
  github_login = "ann";
  github_user_id = pos 7;
}

abbrev node_by_login : ProjectPolicy
node_by_login = record {
  mode = routed;
  node_name = "n1";
  github_login = "ann";
  github_user_id = pos 0;
}

abbrev ready_labels : List String
ready_labels = "looper:worker-ready" ∷ "looper:target:n1" ∷ []

worker_runs : (evaluate_worker as_is node_of_ann ready_labels (ann ∷ [])).allowed ≡ true
unfolding evaluate_worker by_targets match_local_identity parse_target_label strip_prefix
worker_runs = refl

reviewer_runs :
    (evaluate_reviewer as_is node_by_login ("looper:target:n1" ∷ []) (ann ∷ [])).allowed ≡ true
unfolding evaluate_reviewer by_targets match_local_identity parse_target_label strip_prefix
reviewer_runs = refl

one_node_takes_example : node_of_ann.node_name ≡ node_by_login.node_name
unfolding evaluate_worker evaluate_reviewer by_targets match_local_identity parse_target_label
    strip_prefix
one_node_takes_example =
    one_node_takes as_is node_of_ann node_by_login ready_labels (ann ∷ []) (ann ∷ []) refl refl refl
      refl

labels_need_target_adjustment_always_example :
    labels_need_target_adjustment ("looper:target:n1" ∷ []) "n1" ≡ true
labels_need_target_adjustment_always_example =
    labels_need_target_adjustment_always ("looper:target:n1" ∷ []) "n1"
