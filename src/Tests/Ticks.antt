-- ===== src/Tests/Ticks.antt =====
-- A tick of a scheduler that discovers nothing.
use looper_rust.Prelude.{String, true, false, ◌≡◌, refl, subst, none, some, [], ◌∷◌, arith}
use looper_rust.Storage.Schema.{Db, row_ok, ids_ok, index_ok}
use looper_rust.Storage.Queue.{count_by_status}
use looper_rust.Scheduler.Tick.{Discover, Discovery, Scheduler, execute_scheduler_tick}
use looper_rust.Scheduler.Tick.Phases.{IsGentle, IsBounded}
use looper_rust.Scheduler.Tick.Bound.{AreGentle, tick-IsBounded}
use looper_rust.Tests.Samples.{sample, sample-IsWellFormed, project}

abbrev nothing : Discover
nothing p r db = ([], db)

abbrev quiet : Discovery
quiet = record { enabled = true; handler = some nothing }

abbrev scheduler : Scheduler
scheduler = record {
  planner = quiet;
  coordinator = quiet;
  reviewer = quiet;
  fixer = quiet;
  worker = quiet;
  snapshot_set = false;
  reconcile_stale_runs = none;
  max_concurrent_runs = 2;
}

unchanged-IsGentle :
    (f : Discover) → some nothing ≡ some f → (p r : String) → IsGentle (λ db. (f p r db).1)
unchanged-IsGentle f e p r =
    let same : nothing ≡ f = cc in
    subst (λ (x : Discover). IsGentle (λ db. (x p r db).1)) same
      (record { keeps = λ db w. w; starts_none = λ db. omega arith })

scheduler-AreGentle : AreGentle scheduler
scheduler-AreGentle = record {
  reconcile = tt;
  planner = unchanged-IsGentle;
  coordinator = unchanged-IsGentle;
  reviewer = unchanged-IsGentle;
  fixer = unchanged-IsGentle;
  worker = unchanged-IsGentle;
}

abbrev db : Db
db = record sample { projects = project ∷ [] }

db-IsBounded : IsBounded 2 db
unfolding row_ok ids_ok index_ok count_by_status
db-IsBounded = record {
  well_formed = record {
    rows_hold = refl;
    ids_differ = sample-IsWellFormed.ids_differ;
    index_holds = sample-IsWellFormed.index_holds;
  };
  bound = omega arith;
}

tick-IsBounded_example :
    IsBounded 2 (execute_scheduler_tick (λ n. 20) scheduler (λ s. s) (λ s. none) (λ n. false) db).db
tick-IsBounded_example =
    tick-IsBounded (λ n. 20) scheduler scheduler-AreGentle (λ s. s) (λ s. none) (λ n. false) db
      db-IsBounded
