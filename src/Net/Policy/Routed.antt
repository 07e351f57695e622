-- ===== src/Net/Policy/Routed.antt =====
-- What crates/looper-net/src/policy.rs lets a node take.
use looper_rust.Prelude.{
  String, ◌==◌, eq_iff, eq_refl, ◌≡◌, refl, sym, ap, ◌∙◌, Bool, true, false, not, ◌&&◌, ◌||◌,
  Option, none, some, List, [], ◌∷◌, ◌++◌, any, any-tail, keep, ◌⊎◌, Bool-cases, Option-cases, inl,
  inr, arith, concat, starts_with, strip_prefix, strip_prefix-concat, strip_prefix-some,
  strip_prefix-none, filter_map, filter_map-none, filter_map-some,
}
use looper_rust.Net.Policy.{
  NetworkMode, off, routed, MatchMode, GitHubIdentity, ProjectPolicy, Reason, not_assigned,
  not_requested, target_label_prefix, parse_target_label, target_label_for_node, is_only,
  has_exact_target, plan_exact_target, labels_need_target_adjustment, by_targets,
  match_local_identity, evaluate_worker, evaluate_reviewer,
}

abbrev pub is_off : NetworkMode → Bool
is_off off = true
is_off routed = false

abbrev pub is_known : Option MatchMode → Bool
is_known none = false
is_known (some m) = true

by_targets-allowed :
    (n : String) (identity : Option MatchMode) (why : Reason) (ts : List String)
    → (by_targets n identity why ts).allowed ≡ (is_only n ts && is_known identity)
unfolding by_targets
by_targets-allowed n identity why [] = refl
by_targets-allowed n none why (t ∷ []) = elim (Bool-cases (t == n)) [ inl e ↦ rw e | inr e ↦ rw e ]
by_targets-allowed n (some m) why (t ∷ []) = elim (Bool-cases (t == n)) [
  | inl e ↦ rw e
  | inr e ↦ rw e
]
by_targets-allowed n identity why (t ∷ u ∷ ts) = refl

-- two nodes that are the only target of the same labels
only_one : (n k : String) (ts : List String) → is_only n ts ≡ true → is_only k ts ≡ true → n ≡ k
only_one n k [] h j = absurd (ground arith)
only_one n k (t ∷ []) h j = sym ((eq_iff t n).0 h) ∙ (eq_iff t k).0 j
only_one n k (t ∷ u ∷ ts) h j = absurd (ground arith)

mode-cases : (m : NetworkMode) → (m ≡ off) ⊎ (m ≡ routed)
mode-cases off = inl refl
mode-cases routed = inr refl

module _ (to_lowercase : String → String) where
  -- A worker is let by exactly if the network is off, or the labels say that it is ready and name
  -- the local node as their only target, and the local identity is among the assignees. A reviewer
  -- is let by exactly if the network is off, or the labels name the local node as their only target
  -- and the local identity is among the requested reviewers.
  pub allowed_exact :
      (p : ProjectPolicy) (labels : List String) (users : List GitHubIdentity)
      → ((evaluate_worker to_lowercase p labels users).allowed ≡ (
          is_off p.mode
          || (any (λ l. l == "looper:worker-ready") labels
              && (is_only p.node_name (filter_map parse_target_label labels)
                  && is_known (match_local_identity to_lowercase p users)))))
        × ((evaluate_reviewer to_lowercase p labels users).allowed ≡ (
            is_off p.mode
            || (is_only p.node_name (filter_map parse_target_label labels)
                && is_known (match_local_identity to_lowercase p users))))
  unfolding evaluate_worker evaluate_reviewer match_local_identity
  allowed_exact p labels users =
      let t = by_targets-allowed p.node_name (match_local_identity to_lowercase p users) in
      elim (mode-cases p.mode) [
        | inl e ↦ (rw e, rw e)
        | inr e ↦ (
          rw e (elim (Bool-cases (any (λ l. l == "looper:worker-ready") labels)) [
            | inl k ↦ rw k (t not_assigned (filter_map parse_target_label labels))
            | inr k ↦ rw k
          ]),
          rw e (t not_requested (filter_map parse_target_label labels)),
        )
      ]

  -- the node may take the pull request in one of the roles
  abbrev pub may_take : ProjectPolicy → List String → List GitHubIdentity → Bool
  may_take p labels users =
      (evaluate_worker to_lowercase p labels users).allowed
      || (evaluate_reviewer to_lowercase p labels users).allowed

  -- Of the nodes of a routed network no two with different names may take a pull request with the
  -- same labels, in whatever roles and whoever is assigned or requested.
  pub one_node_takes :
      (p q : ProjectPolicy) (labels : List String) (users others : List GitHubIdentity)
      → p.mode ≡ routed
      → q.mode ≡ routed
      → may_take p labels users ≡ true
      → may_take q labels others ≡ true
      → p.node_name ≡ q.node_name
  one_node_takes p q labels users others r s h k =
      only_one p.node_name q.node_name (filter_map parse_target_label labels) (only p users r h)
        (only q others s k)
    where
      only :
          (p : ProjectPolicy) (users : List GitHubIdentity)
          → p.mode ≡ routed
          → may_take p labels users ≡ true
          → is_only p.node_name (filter_map parse_target_label labels) ≡ true
      only p users r h =
          let (w, v) = allowed_exact p labels users in
          let on : is_off p.mode ≡ false = rw r in ground (arith, w, v, h, on)

is_only-any : (n : String) (ts : List String) → is_only n ts ≡ true → any (λ t. t == n) ts ≡ true
is_only-any n [] h = h
is_only-any n (t ∷ []) h = rw h
is_only-any n (t ∷ u ∷ ts) h = absurd (ground arith)

-- a name that the labels have behind the prefix `p` stands in a label
listed :
    (p n : String) (labels : List String)
    → any (λ t. t == n) (filter_map (λ l. strip_prefix l p) labels) ≡ true
    → any (λ l. l == concat p n) labels ≡ true
listed p n [] h = h
listed p n (l ∷ labels) h = elim (Option-cases (strip_prefix l p)) [
  | inl e ↦
      any-tail (λ x. x == concat p n) l labels
        (listed p n labels (rw (filter_map-none (λ x. strip_prefix x p) l labels e) at h))
  | inr (t, e) ↦ elim (Bool-cases (t == n)) [
    | inl k ↦
        let f : l ≡ concat p n =
          sym (strip_prefix-some l p t e) ∙ ap (λ x. concat p x) ((eq_iff t n).0 k) in
        let g : (l == concat p n) ≡ true = rw f (eq_refl (concat p n)) in rw g
    | inr k ↦
        let j : (t == n) || any (λ t. t == n) (filter_map (λ l. strip_prefix l p) labels) ≡ true =
          rw (filter_map-some (λ x. strip_prefix x p) l t labels e) at h in
        any-tail (λ x. x == concat p n) l labels (listed p n labels (rw k at j))
  ]
]

-- the target labels are replaced by the one of the node
planned :
    (p n : String) (labels : List String)
    → is_only n (
        filter_map
          (λ l. strip_prefix l p)
          (keep (λ l. not (starts_with l p)) labels ++ concat p n ∷ []))
      ≡ true
planned p n [] =
    rw (filter_map-some (λ l. strip_prefix l p) (concat p n) n [] (strip_prefix-concat p n))
      (eq_refl n)
planned p n (l ∷ labels) = elim (Bool-cases (starts_with l p)) [
  | inl e ↦ rw e (planned p n labels)
  | inr e ↦ rw e (
      rw
        (filter_map-none (λ x. strip_prefix x p) l
          (keep (λ x. not (starts_with x p)) labels ++ concat p n ∷ []) (strip_prefix-none l p e))
        (planned p n labels))
]

-- The test whether the labels need an adjustment answers yes for all labels and nodes, even where
-- the labels name exactly the node.
pub labels_need_target_adjustment_always :
    (labels : List String) (n : String) → labels_need_target_adjustment labels n ≡ true
unfolding labels_need_target_adjustment has_exact_target target_label_for_node
labels_need_target_adjustment_always labels n = ground (
  arith,
  listed target_label_prefix n labels,
  is_only-any n (filter_map (λ l. strip_prefix l target_label_prefix) labels),
)

-- Once the target of a node is planned, the labels name that node and no other.
pub plan-has_exact_target :
    (labels : List String) (n : String) → has_exact_target (plan_exact_target labels n) n ≡ true
unfolding has_exact_target plan_exact_target target_label_for_node
plan-has_exact_target labels n = planned target_label_prefix n labels
