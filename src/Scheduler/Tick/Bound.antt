-- ===== src/Scheduler/Tick/Bound.antt =====
-- The running items under a tick of crates/looper-scheduler/src/tick.rs.
use looper_rust.Prelude.{
  ℕ, suc, String, Bool, true, false, ◌≡◌, inl, inr, Option, none, some, List, [], ◌∷◌, Bool-cases,
  Option-cases,
}
use looper_rust.Storage.Schema.{ProjectRecord, Timestamp, Db}
use looper_rust.Storage.Projects
use looper_rust.Service.Answers.{Result-cases}
use looper_rust.Service.Repo.{resolve_project_repo}
use looper_rust.Scheduler.Tick.{
  Discover, Discovery, Scheduler, TickState, handler_map, active, track_runnable_ids, claim_phase,
  first_phase, discover, discover_all, counted, visit_project, visit_projects,
  execute_scheduler_tick,
}
use looper_rust.Scheduler.Tick.Phases.{
  IsGentle, IsBounded, IsGentle-IsBounded, IsGentleReconcile, phase-IsBounded,
}

-- the handler of a discovery, if it has one, is gentle for all projects and repositories
abbrev pub IsGentleDiscovery : Discovery → Type 0
IsGentleDiscovery d =
    (f : Discover)
    → d.handler ≡ some f
    → (project repo : String) → IsGentle (λ db. (f project repo db).1)

pub record AreGentle (s : Scheduler) : Type 0 where
  pub reconcile : IsGentleReconcile s.reconcile_stale_runs
  pub planner : IsGentleDiscovery s.planner
  pub coordinator : IsGentleDiscovery s.coordinator
  pub reviewer : IsGentleDiscovery s.reviewer
  pub fixer : IsGentleDiscovery s.fixer
  pub worker : IsGentleDiscovery s.worker

active-handler : (d : Discovery) (f : Discover) → active d ≡ some f → d.handler ≡ some f
active-handler d f h = elim (Bool-cases d.enabled) [
  | inl e ↦ rw e at h
  | inr e ↦ (let k : none ≡ some f = rw e at h in cc)
]

module _ (clock : ℕ → Timestamp) (s : Scheduler) (g : AreGentle s) where
  claim_phase-IsBounded :
      (st : TickState)
      → IsBounded s.max_concurrent_runs st.db
      → IsBounded s.max_concurrent_runs (claim_phase clock s st).db
  unfolding claim_phase
  claim_phase-IsBounded st b =
      phase-IsBounded s.max_concurrent_runs st.db b (handler_map s) s.reconcile_stale_runs
        (clock st.phases) st.discovered_runnable_ids g.reconcile

  discover-IsBounded :
      (d : Discovery) (tracks : Bool) (project repo : String) (st : TickState)
      → IsGentleDiscovery d
      → IsBounded s.max_concurrent_runs st.db
      → IsBounded s.max_concurrent_runs (discover clock s d tracks project repo st).db
  unfolding discover
  discover-IsBounded d tracks project repo st gentle b = elim (Option-cases (active d)) [
    | inl e ↦ rw (e, discover) b
    | inr (f, e) ↦
        rw (e, discover)
          (claim_phase-IsBounded
            (record st {
              db = (f project repo st.db).1;
              discovered_runnable_ids =
                  track_runnable_ids tracks (f project repo st.db).0 st.discovered_runnable_ids;
            })
            (IsGentle-IsBounded (λ db. (f project repo db).1) s.max_concurrent_runs st.db
              (gentle f (active-handler d f e) project repo) b))
  ]

  discover_all-IsBounded :
      (project repo : String) (st : TickState)
      → IsBounded s.max_concurrent_runs st.db
      → IsBounded s.max_concurrent_runs (discover_all clock s project repo st).db
  unfolding discover_all
  discover_all-IsBounded project repo st b =
      discover-IsBounded s.worker true project repo _ g.worker (
        discover-IsBounded s.fixer true project repo _ g.fixer (
          discover-IsBounded s.reviewer true project repo _ g.reviewer (
            discover-IsBounded s.coordinator false project repo _ g.coordinator
              (discover-IsBounded s.planner true project repo st g.planner b))))

  module _ (trim : String → String) (metadata_repo : String → Option String) where
    visit_project-IsBounded :
        (p : ProjectRecord) (st : TickState)
        → IsBounded s.max_concurrent_runs st.db
        → IsBounded s.max_concurrent_runs (visit_project clock s trim metadata_repo p st).db
    unfolding visit_project resolve_project_repo
    visit_project-IsBounded p st b = elim (Bool-cases p.archived) [
      | inl e ↦ rw e b
      | inr e ↦ elim (Result-cases (resolve_project_repo trim metadata_repo p)) [
        | inr (x, f) ↦ rw (e, f) b
        | inl (repo, f) ↦ rw (e, f) (discover_all-IsBounded p.id repo (counted clock s st) b)
      ]
    ]

    visit_projects-IsBounded :
        (is_cancelled : ℕ → Bool) (polls : ℕ) (projects : List ProjectRecord) (st : TickState)
        → IsBounded s.max_concurrent_runs st.db
        → IsBounded s.max_concurrent_runs
            (visit_projects clock s trim metadata_repo is_cancelled polls projects st).db
    unfolding visit_projects
    visit_projects-IsBounded is_cancelled polls [] st b = b
    visit_projects-IsBounded is_cancelled polls (p ∷ rest) st b =
        elim (Bool-cases (is_cancelled polls)) [
          | inl e ↦ rw (e, visit_projects) b
          | inr e ↦
              rw (e, visit_projects)
                (visit_projects-IsBounded is_cancelled (suc polls) rest
                  (visit_project clock s trim metadata_repo p st) (visit_project-IsBounded p st b))
        ]

    -- If the reconciliation and the discoveries keep the constraints of the queue and start no item,
    -- a tick on a well-formed table with at most the configured maximum of running items leaves a
    -- well-formed table with at most that maximum running, wherever it is cancelled.
    pub tick-IsBounded :
        (is_cancelled : ℕ → Bool) (db : Db)
        → IsBounded s.max_concurrent_runs db
        → IsBounded s.max_concurrent_runs
            (execute_scheduler_tick clock s trim metadata_repo is_cancelled db).db
    unfolding execute_scheduler_tick first_phase
    tick-IsBounded is_cancelled db b =
        let first = first_phase clock s db in
        claim_phase-IsBounded
          (visit_projects clock s trim metadata_repo is_cancelled 0
            (Projects.list first.db.projects) first)
          (visit_projects-IsBounded is_cancelled 0 (Projects.list first.db.projects) first (
            phase-IsBounded s.max_concurrent_runs db b (handler_map s) s.reconcile_stale_runs
              (clock 0) [] g.reconcile))
