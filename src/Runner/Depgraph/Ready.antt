-- ===== src/Runner/Depgraph/Ready.antt =====
-- What crates/looper-runner/src/depgraph.rs finds of each tracked issue.
use looper_rust.Prelude.{
  Option-cases, append-nil, append_assoc, String, ◌==◌, eq_iff, eq_refl, ◌≡◌, refl, sym, ap, ◌∙◌,
  Bool, true, false, not, ◌&&◌, none, some, List, [], ◌∷◌, ◌++◌, any, keep, map, Bool-cases, inl,
  inr, ℤ, pos, negsuc, eqb_ℤ, arith, if◌then◌else◌, and-true,
}
use looper_rust.Runner.Depgraph.{
  IssueRef, IssueState, Snapshot, Blocker, DependencyGraph, Findings, same, get_entry, insert_entry,
  or_default, is_empty, normalize, clean, classify_blocker_state, unique_sorted_refs,
  normalize_blocked_by, normalize_issue_states, new_blocker, check_deps, add_issue, dependencies,
  add_issues, build, blockers_of,
}

same_int : (a b : ℤ) → eqb_ℤ a b ≡ true → a ≡ b
same_int (pos m) (pos n) h = let e : m ≡ n = ground arith in ap pos e
same_int (pos m) (negsuc n) h = absurd (ground arith)
same_int (negsuc m) (pos n) h = absurd (ground arith)
same_int (negsuc m) (negsuc n) h = let e : m ≡ n = ground arith in ap negsuc e

pub same_eq : (a b : IssueRef) → same a b ≡ true → a ≡ b
unfolding same
same_eq a b h =
    let (r, n) = and-true (a.repo == b.repo) (eqb_ℤ a.number b.number) h in
    cong2 ((eq_iff a.repo b.repo).0 r) (same_int a.number b.number n)
  where
    cong2 : a.repo ≡ b.repo → a.number ≡ b.number → a ≡ b
    cong2 e f = cc

pub same_refl : (a : IssueRef) → same a a ≡ true
unfolding same
same_refl a = rw (eq_refl a.repo) (ground arith)

pub other_way : (a b : IssueRef) → same a b ≡ false → same b a ≡ false
other_way a b h = ground (arith, same_eq b a, same_refl a, h)

module _ {ℓ} {V : Type ℓ} where
  pub get-insert :
      (r key : IssueRef) (v : V) (rows : List (IssueRef × V))
      → get_entry r (insert_entry key v rows) ≡ (if same key r then some v else get_entry r rows)
  unfolding get_entry insert_entry
  get-insert r key v [] = refl
  get-insert r key v ((k, w) ∷ rows) = elim (Bool-cases (same k key)) [
    | inl e ↦ rw e (rw (← same_eq k key e) (ground arith))
    | inr e ↦
        rw e (ground (arith, get-insert r key v rows, same_eq k r, same_eq key r, same_refl k))
  ]

or_empty {ℓ} :
    {A : Type ℓ} (t : Bool) (xs : List A)
    → or_default (if t && not (is_empty xs) then some xs else none) ≡ (if t then xs else [])
or_empty true [] = refl
or_empty true (x ∷ xs) = refl
or_empty false xs = refl

module _ (trim to_lowercase : String → String) where
  -- the dependencies of an issue that are not satisfied
  abbrev pub blocking :
      List (IssueRef × List IssueRef) → List (IssueRef × IssueState) → IssueRef → List Blocker
  blocking blocked_by states issue =
      keep (λ b. not b.satisfied)
        (map (λ d. new_blocker trim to_lowercase d states)
          (dependencies trim to_lowercase blocked_by issue))

  -- the same of the records of a snapshot
  abbrev pub blocked : Snapshot → IssueRef → List Blocker
  blocked snapshot issue =
      blocking (normalize_blocked_by trim to_lowercase snapshot.blocked_by [])
        (normalize_issue_states trim to_lowercase snapshot.issues []) issue

  check-unsatisfied :
      (tracked : List IssueRef) (states : List (IssueRef × IssueState)) (deps set : List IssueRef)
      → (check_deps trim to_lowercase tracked states deps set).unsatisfied
        ≡ keep (λ b. not b.satisfied) (map (λ d. new_blocker trim to_lowercase d states) deps)
  unfolding check_deps new_blocker
  check-unsatisfied tracked states [] set = refl
  check-unsatisfied tracked states (d ∷ deps) set =
      elim (Bool-cases (new_blocker trim to_lowercase d states).satisfied) [
        | inl e ↦ rw e (check-unsatisfied tracked states deps _)
        | inr e ↦ rw e (
            ap (λ bs. new_blocker trim to_lowercase d states ∷ bs)
              (check-unsatisfied tracked states deps _))
      ]

  add-ready :
      (i : IssueRef) (found : Findings) (g : DependencyGraph)
      → (add_issue trim to_lowercase i found g).ready_set
        ≡ (if is_empty found.unsatisfied then g.ready_set ++ i ∷ [] else g.ready_set)
  unfolding add_issue
  add-ready i found g = ground arith

  add-blockers_of :
      (r i : IssueRef) (found : Findings) (g : DependencyGraph)
      → get_entry r (add_issue trim to_lowercase i found g).blockers ≡ (
          if not (is_empty found.unsatisfied) && same i r
          then some found.unsatisfied
          else get_entry r g.blockers)
  unfolding add_issue
  add-blockers_of r i found g = elim (Bool-cases (is_empty found.unsatisfied)) [
    | inl e ↦ rw e
    | inr e ↦ rw e (get-insert r i found.unsatisfied g.blockers)
  ]

  module _ (tracked : List IssueRef) (blocked_by : List (IssueRef × List IssueRef))
      (states : List (IssueRef × IssueState)) where
    abbrev found : IssueRef → DependencyGraph → Findings
    found i g =
        check_deps trim to_lowercase tracked states (dependencies trim to_lowercase blocked_by i)
          g.unreachable

    add-ready_set :
        (issues : List IssueRef) (g : DependencyGraph)
        → (add_issues trim to_lowercase tracked blocked_by states issues g).ready_set
          ≡ g.ready_set ++ keep (λ i. is_empty (blocking blocked_by states i)) issues
    unfolding add_issues add_issue
    add-ready_set [] g = sym (append-nil g.ready_set)
    add-ready_set (i ∷ issues) g =
        let e = add-ready i (found i g) g in
        let u =
          check-unsatisfied tracked states (dependencies trim to_lowercase blocked_by i)
            g.unreachable in
        add-ready_set issues (add_issue trim to_lowercase i (found i g) g)
        ∙ rw (e, u)
            (elim (Bool-cases (is_empty (blocking blocked_by states i))) [
              | inl k ↦ rw k (append_assoc g.ready_set (i ∷ []) _)
              | inr k ↦ rw k
            ])

    add-blockers :
        (r : IssueRef) (issues : List IssueRef) (g : DependencyGraph)
        → get_entry r (add_issues trim to_lowercase tracked blocked_by states issues g).blockers ≡ (
            if any (same r) issues && not (is_empty (blocking blocked_by states r))
            then some (blocking blocked_by states r)
            else get_entry r g.blockers)
    unfolding add_issues add_issue
    add-blockers r [] g = refl
    add-blockers r (i ∷ issues) g =
        let e = add-blockers_of r i (found i g) g in
        let u =
          check-unsatisfied tracked states (dependencies trim to_lowercase blocked_by i)
            g.unreachable in
        add-blockers r issues (add_issue trim to_lowercase i (found i g) g)
        ∙ rw (e, u)
            (elim (Bool-cases (same i r)) [
              | inl k ↦ rw (same_eq i r k) (rw (same_refl r) (ground arith))
              | inr k ↦ rw (k, other_way i r k) (ground arith)
            ])

  -- Whatever the issues and the snapshot, the ready issues are the tracked ones, normalized, without
  -- repeats and in order, that no dependency blocks.
  pub build-ready_set :
      (refs : List IssueRef) (snapshot : Snapshot)
      → (build trim to_lowercase refs snapshot).ready_set
        ≡ keep (λ i. is_empty (blocked snapshot i)) (unique_sorted_refs trim to_lowercase refs)
  unfolding build
  build-ready_set refs snapshot = add-ready_set _ _ _ _ _

  -- Whatever the issues and the snapshot, the graph gives the unsatisfied dependencies of every
  -- tracked issue as its blockers, and none for an issue that is not tracked.
  pub build-blockers_of :
      (refs : List IssueRef) (snapshot : Snapshot) (issue : IssueRef)
      → blockers_of trim to_lowercase (build trim to_lowercase refs snapshot) issue ≡ (
          if any
            (same (normalize trim to_lowercase issue))
            (unique_sorted_refs trim to_lowercase refs)
          then blocked snapshot (normalize trim to_lowercase issue)
          else [])
  unfolding build blockers_of get_entry
  build-blockers_of refs snapshot issue =
      let r = normalize trim to_lowercase issue in
      rw (add-blockers _ _ _ r (unique_sorted_refs trim to_lowercase refs) _)
        (or_empty (any (same r) (unique_sorted_refs trim to_lowercase refs)) (blocked snapshot r))

  -- If cleaning a text twice is cleaning it once, a blocker is satisfied exactly when the state of
  -- its issue is known, and reads `closed` with the reason `completed` when cleaned.
  pub satisfied_exact :
      ((s : String)
        → clean trim to_lowercase (clean trim to_lowercase s) ≡ clean trim to_lowercase s)
      → (dep : IssueRef) (states : List (IssueRef × IssueState))
      → (new_blocker trim to_lowercase dep states).satisfied
        ≡ (elim (get_entry (normalize trim to_lowercase dep) states) [
          | none ↦ false
          | some s ↦
              clean trim to_lowercase s.state == "closed"
              && clean trim to_lowercase s.state_reason == "completed"
        ])
  unfolding new_blocker classify_blocker_state
  satisfied_exact twice dep states =
      elim (Option-cases (get_entry (normalize trim to_lowercase dep) states)) [
        | inl e ↦ rw e
        | inr (s, e) ↦ rw (e, twice s.state, twice s.state_reason) (ground arith)
      ]
