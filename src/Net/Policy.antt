-- ===== src/Net/Policy.antt =====
-- crates/looper-net/src/policy.rs, and the labels and policies of src/types.rs: which node may take
-- a pull request. A reason is the branch that gives it, with the values that its text shows.
-- `to_lowercase` of the standard library is a parameter.
pub mod Routed
use looper_rust.Prelude.{
  ℕ, String, ◌==◌, Bool, true, false, not, ◌&&◌, ◌||◌, Option, none, some, List, [], ◌∷◌, ◌++◌, any,
  keep, length, ℤ, pos, ltb_ℤ, eqb_ℤ, if◌then◌else◌, concat, starts_with, strip_prefix, filter_map,
}

pub data NetworkMode : Type 0 where
  off routed : NetworkMode

pub data MatchMode : Type 0 where
  no_match numeric login_fallback : MatchMode

pub record GitHubIdentity : Type 0 where
  pub numeric_id : ℤ
  pub login : String

pub record ProjectPolicy : Type 0 where
  pub mode : NetworkMode
  pub node_name : String
  pub github_login : String
  pub github_user_id : ℤ

pub data Reason : Type 0 where
  no_reason not_worker_ready not_assigned not_requested : Reason
  not_one_target : ℕ → Reason
  other_node : String → String → Reason

pub record ClaimDecision : Type 0 where
  pub allowed : Bool
  pub reason : Reason
  pub match_mode : MatchMode
  pub target_label : String

abbrev pub target_label_prefix : String
target_label_prefix = "looper:target:"

abbrev pub non_empty : Option String → Option String
non_empty none = none
non_empty (some name) = if name == "" then none else some name

unfoldable pub parse_target_label : String → Option String
parse_target_label label = non_empty (strip_prefix label target_label_prefix)

unfoldable pub target_label_for_node : String → String
target_label_for_node node_name = concat target_label_prefix node_name

unfoldable pub collect_target_labels : List String → List String
collect_target_labels labels = keep (λ l. starts_with l target_label_prefix) labels

-- `targets.len() == 1 && targets[0] == node_name`
abbrev pub is_only : String → List String → Bool
is_only node_name [] = false
is_only node_name (t ∷ []) = t == node_name
is_only node_name (t ∷ u ∷ ts) = false

unfoldable pub has_exact_target : List String → String → Bool
has_exact_target labels node_name =
    is_only node_name (filter_map (λ l. strip_prefix l target_label_prefix) labels)

unfoldable pub plan_exact_target : List String → String → List String
plan_exact_target labels node_name =
    keep (λ l. not (starts_with l target_label_prefix)) labels
    ++ target_label_for_node node_name ∷ []

unfoldable pub labels_need_target_adjustment : List String → String → Bool
labels_need_target_adjustment labels node_name =
    not (has_exact_target labels node_name)
    || any (λ l. l == target_label_for_node node_name) labels

abbrev pub refuse : Reason → String → ClaimDecision
refuse why target_label = record {
  allowed = false;
  reason = why;
  match_mode = no_match;
  target_label = target_label;
}

abbrev pub locally_allowed : ClaimDecision
locally_allowed = record {
  allowed = true;
  reason = no_reason;
  match_mode = no_match;
  target_label = "";
}

-- the decision once the labels name the local node alone
abbrev pub by_identity : Option MatchMode → Reason → String → ClaimDecision
by_identity none why target_label = refuse why target_label
by_identity (some mode) why target_label = record {
  allowed = true;
  reason = no_reason;
  match_mode = mode;
  target_label = target_label;
}

-- the checks of the target labels, which both roles share
unfoldable pub by_targets : String → Option MatchMode → Reason → List String → ClaimDecision
by_targets node_name identity why [] = refuse (not_one_target 0) ""
by_targets node_name identity why (t ∷ []) =
    if not (t == node_name)
    then refuse (other_node t node_name) t
    else by_identity identity why (target_label_for_node node_name)
by_targets node_name identity why (t ∷ u ∷ ts) = refuse (not_one_target (length (t ∷ u ∷ ts))) ""

module _ (to_lowercase : String → String) where
  abbrev pub is_numeric_match : ProjectPolicy → GitHubIdentity → Bool
  is_numeric_match policy user =
      ltb_ℤ (pos 0) policy.github_user_id
      && (ltb_ℤ (pos 0) user.numeric_id && eqb_ℤ policy.github_user_id user.numeric_id)

  unfoldable pub match_local_identity : ProjectPolicy → List GitHubIdentity → Option MatchMode
  match_local_identity policy users =
      if any (is_numeric_match policy) users
      then some numeric
      else if any (λ user. to_lowercase policy.github_login == to_lowercase user.login) users
      then some login_fallback
      else none

  unfoldable pub evaluate_worker : ProjectPolicy → List String → List GitHubIdentity → ClaimDecision
  evaluate_worker policy labels assignees = elim policy.mode [
    | off ↦ locally_allowed
    | routed ↦
        if not (any (λ l. l == "looper:worker-ready") labels)
        then refuse not_worker_ready ""
        else by_targets policy.node_name (match_local_identity policy assignees) not_assigned
            (filter_map parse_target_label labels)
  ]

  unfoldable pub evaluate_reviewer :
      ProjectPolicy → List String → List GitHubIdentity → ClaimDecision
  evaluate_reviewer policy labels review_requests = elim policy.mode [
    | off ↦ locally_allowed
    | routed ↦
        by_targets policy.node_name (match_local_identity policy review_requests) not_requested
          (filter_map parse_target_label labels)
  ]
