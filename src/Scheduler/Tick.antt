-- ===== src/Scheduler/Tick.antt =====
-- `execute_scheduler_tick` of crates/looper-scheduler/src/tick.rs. The handlers are trait objects: what
-- they discover, and how they change the store, is a parameter, as are the clock, the answers of
-- the context to its polls, and the functions on texts. The middleware at the end writes tables
-- that are not modelled, and the duration of the tick is left out.
pub mod Phases
pub mod Bound
use looper_rust.Prelude.{
  ℕ, suc, ◌+◌, String, Bool, true, false, Option, none, some, List, [], ◌∷◌, ◌++◌, map,
  if◌then◌else◌,
}
use looper_rust.Storage.Schema.{QueueItemRecord, ProjectRecord, Timestamp, Db}
use looper_rust.Storage.Projects
use looper_rust.Service.Outcome.{ServiceError, Result, ok, err}
use looper_rust.Service.Repo.{resolve_project_repo}
use looper_rust.Scheduler.Claim.{HandlerMap, Reconcile, execute_claim_phase}

-- the discovery of a project and its repository: the queue items, and the store
abbrev pub Discover : Type 0
Discover = String → String → Db → List QueueItemRecord × Db

pub record Discovery : Type 0 where
  pub enabled : Bool
  pub handler : Option Discover

pub record Scheduler : Type 0 where
  pub planner : Discovery
  pub coordinator : Discovery
  pub reviewer : Discovery
  pub fixer : Discovery
  pub worker : Discovery
  pub snapshot_set : Bool
  pub reconcile_stale_runs : Reconcile
  pub max_concurrent_runs : ℕ

pub record TickSummary : Type 0 where
  pub projects_processed : ℕ
  pub total_claimed : ℕ
  pub total_available : ℕ
  -- the project, and why it was passed over
  pub discovery_errors : List (String × ServiceError)

-- what the tick has done so far, with the number of its claim phases
pub record TickState : Type 0 where
  pub db : Db
  pub discovered_runnable_ids : List String
  pub phases : ℕ
  pub summary : TickSummary

abbrev pub is_set : Discovery → Bool
is_set d = elim d.handler [ none ↦ false | some f ↦ true ]

abbrev pub handler_map : Scheduler → HandlerMap
handler_map s = record {
  planner_set = is_set s.planner;
  coordinator_set = is_set s.coordinator;
  reviewer_set = is_set s.reviewer;
  fixer_set = is_set s.fixer;
  worker_set = is_set s.worker;
  snapshot_set = s.snapshot_set;
}

abbrev pub active : Discovery → Option Discover
active d = if d.enabled then d.handler else none

abbrev pub track_runnable_ids : Bool → List QueueItemRecord → List String → List String
track_runnable_ids true items ids = map (λ (q : QueueItemRecord). q.id) items ++ ids
track_runnable_ids false items ids = ids

module _ (clock : ℕ → Timestamp) (s : Scheduler) where
  -- a claim phase, with the number of its claims added
  unfoldable pub claim_phase : TickState → TickState
  claim_phase st =
      let r =
        execute_claim_phase (handler_map s) s.reconcile_stale_runs s.max_concurrent_runs
          (clock st.phases) st.discovered_runnable_ids st.db in
      record st {
        db = r.run.db;
        phases = suc st.phases;
        summary = record st.summary { total_claimed = st.summary.total_claimed + r.claimed };
      }

  -- the first phase also tells the free slots
  unfoldable pub first_phase : Db → TickState
  first_phase db =
      let r =
        execute_claim_phase (handler_map s) s.reconcile_stale_runs s.max_concurrent_runs (clock 0)
          [] db in
      record {
        db = r.run.db;
        discovered_runnable_ids = [];
        phases = 1;
        summary = record {
          projects_processed = 0;
          total_claimed = r.claimed;
          total_available = r.available;
          discovery_errors = [];
        };
      }

  -- a discovery, if it is enabled and has a handler, and the claim phase after it
  unfoldable pub discover : Discovery → Bool → String → String → TickState → TickState
  discover d tracks project repo st = elim (active d) [
    | none ↦ st
    | some f ↦
        (let (items, db') = f project repo st.db in
          claim_phase (record st {
            db = db';
            discovered_runnable_ids = track_runnable_ids tracks items st.discovered_runnable_ids;
          }))
  ]

  unfoldable pub discover_all : String → String → TickState → TickState
  discover_all project repo st = discover s.worker true project repo (
      discover s.fixer true project repo (
        discover s.reviewer true project repo
          (discover s.coordinator false project repo (discover s.planner true project repo st))))

  abbrev pub counted : TickState → TickState
  counted st = record st {
    summary = record st.summary { projects_processed = suc st.summary.projects_processed };
  }

  abbrev pub with_error : String → ServiceError → TickState → TickState
  with_error project e st = record st {
    summary = record st.summary {
      discovery_errors = st.summary.discovery_errors ++ (project, e) ∷ [];
    };
  }

  module _ (trim : String → String) (metadata_repo : String → Option String) where
    unfoldable pub visit_project : ProjectRecord → TickState → TickState
    visit_project p st =
        if p.archived then st else elim (resolve_project_repo trim metadata_repo p) [
          | err e ↦ with_error p.id e (counted st)
          | ok repo ↦ discover_all p.id repo (counted st)
        ]

    -- the loop over the projects; the n-th poll of the context is made before the n-th project
    unfoldable pub visit_projects : (ℕ → Bool) → ℕ → List ProjectRecord → TickState → TickState
    visit_projects is_cancelled polls [] st = st
    visit_projects is_cancelled polls (p ∷ rest) st = elim (is_cancelled polls) [
      | true ↦ st
      | false ↦ visit_projects is_cancelled (suc polls) rest (visit_project p st)
    ]

    unfoldable pub execute_scheduler_tick : (ℕ → Bool) → Db → TickState
    execute_scheduler_tick is_cancelled db =
        let st = first_phase db in
        claim_phase (visit_projects is_cancelled 0 (Projects.list st.db.projects) st)
