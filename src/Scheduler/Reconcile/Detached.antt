-- ===== src/Scheduler/Reconcile/Detached.antt =====
-- `upsert` of crates/looper-storage/src/repos/runs.rs, as the reconciliation at startup sees it.
use looper_rust.Prelude.{
  ℕ, ◌+◌, ◌==◌, eq_iff, Bool, false, ◌&&◌, ◌≡◌, refl, ◌∙◌, List, [], ◌∷◌, any, any-keep, any-false,
  ltb, keep, keep-mem, map, Memᴰ, arith, Bool-cases, inl, inr,
}
use looper_rust.Storage.Schema.{ok, is_in}
use looper_rust.Storage.Sql.{sql_eq}
use looper_rust.Storage.Sql.Listed.{any-order_by}
use looper_rust.Storage.Runs.{
  RunRecord, AgentExecutionRecord, Repositories, upsert, detach, is_replaced, list_active,
}
use looper_rust.Scheduler.Reconcile.{
  System, Reconciliation, evaluate_stale_run_candidate, has_active_exec, startup, reconcile_run,
}

-- the executions of a deleted run name no run
detach-names :
    (new old : RunRecord) (deleted : List RunRecord) (e : AgentExecutionRecord)
    → Memᴰ old deleted
    → old.id ≡ new.id
    → sql_eq (detach deleted e).run_id new.id ≡ false
detach-names new old deleted e m same =
    elim (Bool-cases (any (λ (r : RunRecord). sql_eq e.run_id r.id) deleted)) [
      | inl h ↦ rw h refl
      | inr h ↦
          rw h (rw (← same) (any-false (λ (r : RunRecord). sql_eq e.run_id r.id) deleted old h m))
    ]

any-map_never {ℓ} :
    {A B : Type ℓ} (p : B → Bool) (f : A → B) (xs : List A)
    → ((a : A) → p (f a) ≡ false)
    → any p (map f xs) ≡ false
any-map_never p f [] h = refl
any-map_never p f (x ∷ xs) h = ground (arith, h x, any-map_never p f xs h)

upsert-executions :
    (new : RunRecord) (s s' : Repositories)
    → upsert new s ≡ ok s'
    → s'.agent_executions ≡ map (detach (keep (is_replaced new) s.runs)) s.agent_executions
unfolding upsert
upsert-executions new s s' h = ground arith

-- no execution names the run, whatever its status is
upsert-unnamed :
    (new old : RunRecord) (s s' : Repositories)
    → Memᴰ old s.runs
    → old.id ≡ new.id
    → upsert new s ≡ ok s'
    → any (λ (e : AgentExecutionRecord). sql_eq e.run_id new.id) s'.agent_executions ≡ false
upsert-unnamed new old s s' m same h =
    let gone : Memᴰ old (keep (is_replaced new) s.runs) =
      keep-mem (is_replaced new) s.runs old m (ground (arith, (eq_iff old.id new.id).1 same)) in
    rw (upsert-executions new s s' h) (
      any-map_never _ (detach (keep (is_replaced new) s.runs)) s.agent_executions
        (λ e. detach-names new old _ e gone same))

unnamed-inactive :
    (run : RunRecord) (executions : List AgentExecutionRecord)
    → any (λ (e : AgentExecutionRecord). sql_eq e.run_id run.id) executions ≡ false
    → has_active_exec run executions ≡ false
unnamed-inactive run [] h = refl
unnamed-inactive run (e ∷ executions) h = ground (arith, unnamed-inactive run executions)

-- When a run that the table has is written again, no execution names the run afterwards, whatever
-- the status of the execution is; and a reconciliation at startup that comes to the run only counts
-- it as uncertain and passes over it.
pub upsert-detaches :
    (sys : System) (now : ℕ) (new old : RunRecord) (s s' : Repositories) (c : Reconciliation)
    → Memᴰ old s.runs
    → old.id ≡ new.id
    → upsert new s ≡ ok s'
    → c.summary.mode ≡ startup
    → (any (λ (e : AgentExecutionRecord). sql_eq e.run_id new.id) s'.agent_executions ≡ false)
      × (reconcile_run sys (list_active s') now new c ≡ record c {
        summary = record c.summary {
          skipped_uncertain_runs = c.summary.skipped_uncertain_runs + 1;
        };
      })
unfolding reconcile_run evaluate_stale_run_candidate list_active
upsert-detaches sys now new old s s' c m same h mode =
    let unnamed = upsert-unnamed new old s s' m same h in
    let inactive : has_active_exec new (list_active s') ≡ false =
      any-order_by (λ (a b : AgentExecutionRecord). ltb a.started_at b.started_at)
        (λ e. sql_eq e.run_id new.id && e.status == "running")
        (keep (λ e. is_in e.status ("running" ∷ "cancelling" ∷ [])) s'.agent_executions)
      ∙ any-keep (λ e. sql_eq e.run_id new.id && e.status == "running")
          (λ e. is_in e.status ("running" ∷ "cancelling" ∷ [])) s'.agent_executions
          (unnamed-inactive new s'.agent_executions unnamed) in
    (unnamed, rw (mode, inactive) refl)
