-- ===== src/Scheduler/Reconcile/Startup.antt =====
-- `reconcile_stale_runs` of crates/looper-scheduler/src/recovery.rs at startup: its summary, and the
-- runs that it leaves.
use looper_rust.Prelude.{
  ℕ, length, ◌==◌, Bool, not, ◌&&◌, ◌≡◌, refl, ◌∙◌, some, List, [], ◌∷◌, ◌++◌, map, any, keep,
  count, ltb, arith,
}
use looper_rust.Storage.Schema.{Timestamp, is_in}
use looper_rust.Storage.Sql.{sql_eq}
use looper_rust.Storage.Runs.{
  RunRecord, AgentExecutionRecord, Repositories, list_by_status, list_active,
}
use looper_rust.Scheduler.Reconcile.{Reconciliation, startup, has_active_exec}
use looper_rust.Scheduler.Reconcile.Interrupted.{ended_run, is_listed}
use looper_rust.Storage.Sql.Listed.{any-order_by}

-- an execution in the table names the run and runs
abbrev pub is_backed : List AgentExecutionRecord → RunRecord → Bool
is_backed executions run =
    any (λ (e : AgentExecutionRecord). sql_eq e.run_id run.id && e.status == "running") executions

-- the runs that are interrupted, the newest first
abbrev pub taken : Repositories → List RunRecord
taken s = keep (is_backed s.agent_executions) (list_by_status "running" s)

abbrev pub passed_over : Repositories → ℕ
passed_over s = count (λ r. not (is_backed s.agent_executions r)) (list_by_status "running" s)

pub record IsReconciled (t : Timestamp) (now : ℕ) (s : Repositories) (c : Reconciliation)
    : Type 0 where
  pub summary : c.summary ≡ record {
    mode = startup;
    started_at = some now;
    completed_at = some now;
    candidate_runs = 0;
    interrupted_runs = length (taken s);
    loops_requeued = length (taken s);
    queue_items_requeued = 0;
    queue_items_cancelled = 0;
    cleaned_executions = 0;
    skipped_uncertain_runs = passed_over s;
    events_written = 0;
    run_ids = map (λ (r : RunRecord). r.id) (taken s);
    loop_ids = map (λ (r : RunRecord). r.loop_id) (taken s);
    execution_ids = [];
  }
  pub runs :
      c.repos.runs ≡ keep (λ r. not (is_listed (taken s) r)) s.runs ++ map (ended_run t) (taken s)

-- a running execution is an active one
any-active :
    (run : RunRecord) (executions : List AgentExecutionRecord)
    → any
        (λ (e : AgentExecutionRecord). sql_eq e.run_id run.id && e.status == "running")
        (keep (λ e. is_in e.status ("running" ∷ "cancelling" ∷ [])) executions)
      ≡ is_backed executions run
any-active run [] = refl
any-active run (e ∷ executions) = ground (arith, any-active run executions)

backed_same :
    (s : Repositories) (run : RunRecord)
    → has_active_exec run (list_active s) ≡ is_backed s.agent_executions run
unfolding list_active
backed_same s run =
    any-order_by (λ (a b : AgentExecutionRecord). ltb a.started_at b.started_at)
      (λ e. sql_eq e.run_id run.id && e.status == "running")
      (keep (λ e. is_in e.status ("running" ∷ "cancelling" ∷ [])) s.agent_executions)
    ∙ any-active run s.agent_executions

pub same_tests :
    (s : Repositories)
    → (λ (r : RunRecord). has_active_exec r (list_active s)) ≡ is_backed s.agent_executions
same_tests s = λ i r. backed_same s r i
