-- ===== src/Runner/Depgraph.antt =====
-- crates/looper-runner/src/depgraph.rs: which issues are ready and which are blocked, up to the
-- search for cycles. A hash map is the list of its entries in the order of iteration, and a hash
-- set a list without repeats. `trim` and `to_lowercase` of the standard library are parameters.
pub mod Cycles
pub mod Ready
pub mod Dependencies
use looper_rust.Prelude.{
  String, ◌==◌, Bool, true, false, not, ◌&&◌, ◌||◌, Option, none, some, List, [], ◌∷◌, ◌++◌, any,
  map, ℤ, pos, ltb_ℤ, leb_ℤ, eqb_ℤ, if◌then◌else◌, is_less,
}
use looper_rust.Storage.Sql.{order_by}

pub record IssueRef : Type 0 where
  pub repo : String
  pub number : ℤ

pub record IssueState : Type 0 where
  pub state : String
  pub state_reason : String

pub record Snapshot : Type 0 where
  pub blocked_by : List (IssueRef × List IssueRef)
  pub issues : List (IssueRef × IssueState)
  pub unreachable : List IssueRef

pub record Blocker : Type 0 where
  pub issue : IssueRef
  pub state : String
  pub state_reason : String
  pub satisfied : Bool
  pub requires_re_triage : Bool
  pub unreachable : Bool
  pub number : ℤ
  pub repo : String
  pub reachable : Bool

-- what `build` collects; `edges` are the edges that it searches for cycles
pub record DependencyGraph : Type 0 where
  pub ready_set : List IssueRef
  pub unreachable : List IssueRef
  pub blockers : List (IssueRef × List Blocker)
  pub edges : List (IssueRef × List IssueRef)

pub record BlockerDisposition : Type 0 where
  pub satisfied : Bool
  pub requires_re_triage : Bool

-- the derived `==`
unfoldable pub same : IssueRef → IssueRef → Bool
same a b = a.repo == b.repo && eqb_ℤ a.number b.number

module _ {ℓ} {V : Type ℓ} where
  unfoldable pub get_entry : IssueRef → List (IssueRef × V) → Option V
  get_entry key [] = none
  get_entry key ((k, v) ∷ rows) = if same k key then some v else get_entry key rows

  -- `HashMap::insert`
  unfoldable pub insert_entry : IssueRef → V → List (IssueRef × V) → List (IssueRef × V)
  insert_entry key v [] = (key, v) ∷ []
  insert_entry key v ((k, w) ∷ rows) =
      if same k key then (k, v) ∷ rows else (k, w) ∷ insert_entry key v rows

-- `out.entry(issue).or_default().push(dep)`
unfoldable pub push_entry :
    IssueRef → IssueRef → List (IssueRef × List IssueRef) → List (IssueRef × List IssueRef)
push_entry key dep [] = (key, dep ∷ []) ∷ []
push_entry key dep ((k, deps) ∷ rows) =
    if same k key then (k, deps ++ dep ∷ []) ∷ rows else (k, deps) ∷ push_entry key dep rows

-- `HashSet::insert`
abbrev pub insert_ref : IssueRef → List IssueRef → List IssueRef
insert_ref r set = if any (same r) set then set else r ∷ set

abbrev pub or_default {ℓ} : {A : Type ℓ} → Option (List A) → List A
or_default none = []
or_default (some xs) = xs

abbrev pub is_empty {ℓ} : {A : Type ℓ} → List A → Bool
is_empty [] = true
is_empty (x ∷ xs) = false

abbrev pub is_positive : IssueRef → Bool
is_positive r = ltb_ℤ (pos 0) r.number

abbrev pub by_repo_and_number : IssueRef → IssueRef → Bool
by_repo_and_number a b =
    if not (a.repo == b.repo) then is_less a.repo b.repo else ltb_ℤ a.number b.number

unfoldable pub refs_from_set : List IssueRef → List IssueRef
refs_from_set set = order_by by_repo_and_number set

-- what the inner loop of `build` finds about one issue
pub record Findings : Type 0 where
  pub unsatisfied : List Blocker
  pub tracked_deps : List IssueRef
  pub unreachable_set : List IssueRef

module _ (trim to_lowercase : String → String) where
  abbrev pub clean : String → String
  clean s = to_lowercase (trim s)

  unfoldable pub normalize : IssueRef → IssueRef
  normalize r = record r { repo = clean r.repo }

  -- the positive references of a list, normalized, added to a set
  unfoldable pub add_positive : List IssueRef → List IssueRef → List IssueRef
  add_positive [] set = set
  add_positive (ref ∷ refs) set =
      let r = normalize ref in add_positive refs (if is_positive r then insert_ref r set else set)

  unfoldable pub unique_sorted_refs : List IssueRef → List IssueRef
  unique_sorted_refs input = refs_from_set (add_positive input [])

  unfoldable pub push_deps :
      IssueRef → List IssueRef → List (IssueRef × List IssueRef) → List (IssueRef × List IssueRef)
  push_deps issue [] out = out
  push_deps issue (dep ∷ deps) out =
      let d = normalize dep in
      push_deps issue deps (if is_positive d then push_entry issue d out else out)

  unfoldable pub normalize_blocked_by :
      List (IssueRef × List IssueRef)
      → List (IssueRef × List IssueRef)
      → List (IssueRef × List IssueRef)
  normalize_blocked_by [] out = out
  normalize_blocked_by ((issue, deps) ∷ input) out =
      let i = normalize issue in
      normalize_blocked_by input (if is_positive i then push_deps i deps out else out)

  unfoldable pub normalize_issue_states :
      List (IssueRef × IssueState) → List (IssueRef × IssueState) → List (IssueRef × IssueState)
  normalize_issue_states [] out = out
  normalize_issue_states ((ref, s) ∷ input) out =
      let r = normalize ref in
      normalize_issue_states input (
        if is_positive r
        then insert_entry r record { state = trim s.state; state_reason = trim s.state_reason } out
        else out)

  unfoldable pub classify_blocker_state : IssueState → BlockerDisposition
  classify_blocker_state s =
      let state_norm = clean s.state in
      let reason_norm = clean s.state_reason in
      if state_norm == "closed" && reason_norm == "completed"
      then record { satisfied = true; requires_re_triage = false }
      else if state_norm == "closed" && (reason_norm == "not_planned" || reason_norm == "duplicate")
      then record { satisfied = false; requires_re_triage = true }
      else record { satisfied = false; requires_re_triage = false }

  abbrev pub blocker_of : IssueRef → Option IssueState → Blocker
  blocker_of dep none = record {
    issue = dep;
    state = "";
    state_reason = "";
    satisfied = false;
    requires_re_triage = false;
    unreachable = true;
    number = pos 0;
    repo = "";
    reachable = false;
  }
  blocker_of dep (some s) =
      let state_norm : IssueState = record {
        state = clean s.state;
        state_reason = clean s.state_reason;
      } in
      let classification = classify_blocker_state state_norm in
      record {
        issue = dep;
        state = state_norm.state;
        state_reason = state_norm.state_reason;
        satisfied = classification.satisfied;
        requires_re_triage = classification.requires_re_triage;
        unreachable = false;
        number = pos 0;
        repo = "";
        reachable = true;
      }

  unfoldable pub new_blocker : IssueRef → List (IssueRef × IssueState) → Blocker
  new_blocker dep issues = let d = normalize dep in blocker_of d (get_entry d issues)

  -- the loop of `build` over the dependencies of an issue
  unfoldable pub check_deps :
      List IssueRef → List (IssueRef × IssueState) → List IssueRef → List IssueRef → Findings
  check_deps tracked states [] unreachable_set = record {
    unsatisfied = [];
    tracked_deps = [];
    unreachable_set = unreachable_set;
  }
  check_deps tracked states (dep ∷ deps) unreachable_set =
      let blocker = new_blocker dep states in
      let set =
        if not blocker.satisfied && blocker.unreachable
        then insert_ref dep unreachable_set
        else unreachable_set in
      let rest = check_deps tracked states deps set in
      if blocker.satisfied then rest else record {
        unsatisfied = blocker ∷ rest.unsatisfied;
        tracked_deps =
            if not blocker.unreachable && any (same dep) tracked
            then dep ∷ rest.tracked_deps
            else rest.tracked_deps;
        unreachable_set = rest.unreachable_set;
      }

  -- what the graph gains from an issue
  unfoldable pub add_issue : IssueRef → Findings → DependencyGraph → DependencyGraph
  add_issue issue found g =
      if is_empty found.unsatisfied
      then record g { ready_set = g.ready_set ++ issue ∷ []; unreachable = found.unreachable_set }
      else record g {
        unreachable = found.unreachable_set;
        blockers = insert_entry issue found.unsatisfied g.blockers;
        edges =
            if is_empty found.tracked_deps
            then g.edges
            else insert_entry issue found.tracked_deps g.edges;
      }

  abbrev pub dependencies : List (IssueRef × List IssueRef) → IssueRef → List IssueRef
  dependencies blocked_by issue = unique_sorted_refs (or_default (get_entry issue blocked_by))

  -- the loop of `build` over the tracked issues
  unfoldable pub add_issues :
      List IssueRef
      → List (IssueRef × List IssueRef)
      → List (IssueRef × IssueState)
      → List IssueRef
      → DependencyGraph
      → DependencyGraph
  add_issues tracked blocked_by states [] g = g
  add_issues tracked blocked_by states (issue ∷ issues) g =
      let found = check_deps tracked states (dependencies blocked_by issue) g.unreachable in
      add_issues tracked blocked_by states issues (add_issue issue found g)

  unfoldable pub build : List IssueRef → Snapshot → DependencyGraph
  build refs snapshot =
      let tracked = unique_sorted_refs refs in
      let g =
        add_issues tracked (normalize_blocked_by snapshot.blocked_by [])
          (normalize_issue_states snapshot.issues []) tracked
          record {
            ready_set = [];
            unreachable = add_positive snapshot.unreachable [];
            blockers = [];
            edges = [];
          } in
      record g { unreachable = refs_from_set g.unreachable }

  unfoldable pub blockers_of : DependencyGraph → IssueRef → List Blocker
  blockers_of g issue = or_default (get_entry (normalize issue) g.blockers)

abbrev pub marked : Blocker → Blocker
marked b = record b { number = b.issue.number; repo = b.issue.repo; reachable = not b.unreachable }

-- the first entry, in the order of the map, that has the number and some blockers
unfoldable pub blockers_by_number : ℤ → List (IssueRef × List Blocker) → List Blocker
blockers_by_number n [] = []
blockers_by_number n ((issue, blockers) ∷ rows) =
    if not (eqb_ℤ issue.number n) || is_empty blockers
    then blockers_by_number n rows
    else map marked blockers

unfoldable pub unsatisfied : DependencyGraph → ℤ → List Blocker
unsatisfied g issue_number =
    if leb_ℤ issue_number (pos 0) then [] else blockers_by_number issue_number g.blockers
