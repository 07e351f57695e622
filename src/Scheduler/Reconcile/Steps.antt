-- ===== src/Scheduler/Reconcile/Steps.antt =====
-- The rounds of the loop over the runs in crates/looper-scheduler/src/recovery.rs at startup.
use looper_rust.Prelude.{
  ℕ, suc, ◌+◌, length, Bool, true, false, not, ◌≡◌, refl, sym, ◌∙◌, ap, none, some, List, [], ◌∷◌,
  ◌++◌, map, all, keep, count, append_assoc, append-nil, arith, Bool-cases, Option-cases, inl, inr,
}
use looper_rust.Storage.Schema.{Timestamp, Db}
use looper_rust.Storage.Runs.{RunRecord, AgentExecutionRecord}
use looper_rust.Scheduler.Reconcile.{
  System, Context, Reconciliation, StaleRunReconcileSummary, startup, evaluate_stale_run_candidate,
  has_active_exec, interrupt_run, reconcile_run, reconcile_runs,
}
use looper_rust.Scheduler.Reconcile.Interrupted.{rewritten}
use looper_rust.Scheduler.Reconcile.Written.{has_loop, repair-loops, interrupt-runs}

abbrev pub lacks_exec : List AgentExecutionRecord → RunRecord → Bool
lacks_exec executions run = not (has_active_exec run executions)

-- a summary after the runs `taken` were interrupted and `n` others passed over
abbrev pub counted : List RunRecord → ℕ → StaleRunReconcileSummary → StaleRunReconcileSummary
counted taken n s = record s {
  interrupted_runs = s.interrupted_runs + length taken;
  loops_requeued = s.loops_requeued + length taken;
  skipped_uncertain_runs = s.skipped_uncertain_runs + n;
  run_ids = s.run_ids ++ map (λ (r : RunRecord). r.id) taken;
  loop_ids = s.loop_ids ++ map (λ (r : RunRecord). r.loop_id) taken;
}

plus_zero : (n : ℕ) → n + 0 ≡ n
plus_zero n = omega arith

plus_suc : (n m : ℕ) → n + 1 + m ≡ n + suc m
plus_suc n m = omega arith

nothing_counted : (s : StaleRunReconcileSummary) → counted [] 0 s ≡ s
nothing_counted s =
    rw
      (
        plus_zero s.interrupted_runs,
        plus_zero s.loops_requeued,
        plus_zero s.skipped_uncertain_runs,
        append-nil s.run_ids,
        append-nil s.loop_ids,
      )
      refl

counted_cons :
    (run : RunRecord) (rest : List RunRecord) (n : ℕ) (s : StaleRunReconcileSummary)
    → counted rest n (counted (run ∷ []) 0 s) ≡ counted (run ∷ rest) n s
counted_cons run rest n s =
    rw
      (
        plus_suc s.interrupted_runs (length rest),
        plus_suc s.loops_requeued (length rest),
        plus_zero s.skipped_uncertain_runs,
        append_assoc s.run_ids (run.id ∷ []) (map (λ (r : RunRecord). r.id) rest),
        append_assoc s.loop_ids (run.loop_id ∷ []) (map (λ (r : RunRecord). r.loop_id) rest),
      )
      refl

counted_skip :
    (rest : List RunRecord) (n : ℕ) (s : StaleRunReconcileSummary)
    → counted rest n (counted [] 1 s) ≡ counted rest (suc n) s
counted_skip rest n s =
    rw
      (
        plus_zero s.interrupted_runs,
        plus_zero s.loops_requeued,
        plus_suc s.skipped_uncertain_runs n,
        append-nil s.run_ids,
        append-nil s.loop_ids,
      )
      refl

one_skipped :
    (s : StaleRunReconcileSummary)
    → record s { skipped_uncertain_runs = s.skipped_uncertain_runs + 1 } ≡ counted [] 1 s
one_skipped s =
    rw
      (
        plus_zero s.interrupted_runs,
        plus_zero s.loops_requeued,
        append-nil s.run_ids,
        append-nil s.loop_ids,
      )
      refl

-- one round that raised no error
pub record IsStep (t : Timestamp) (taken : List RunRecord) (n : ℕ) (c c' : Reconciliation)
    : Type 0 where
  pub summary : c'.summary ≡ counted taken n c.summary
  pub runs : c'.repos.runs ≡ rewritten t taken c.repos.runs
  pub loops : c'.repos.db.loops ≡ c.repos.db.loops

interrupt_run-IsStep :
    (run : RunRecord) (t : Timestamp) (c : Reconciliation)
    → has_loop c.repos.db.loops run ≡ true
    → (interrupt_run run t c).error ≡ none
    → IsStep t (run ∷ []) 0 c (interrupt_run run t c)
unfolding interrupt_run
interrupt_run-IsStep run t c h e =
    let (r, d) = interrupt-runs run t c.repos h in
    record {
      summary = rw (e, interrupt_run) (rw (plus_zero c.summary.skipped_uncertain_runs) refl);
      runs = r;
      loops = repair-loops run.loop_id t _ ∙ ap (λ (x : Db). x.loops) d;
    }

module _ (sys : System) (executions : List AgentExecutionRecord) (now : ℕ) where
  abbrev pub backed : List RunRecord → List RunRecord
  backed runs = keep (λ r. has_active_exec r executions) runs

  abbrev pub left : List RunRecord → ℕ
  left runs = count (lacks_exec executions) runs

  abbrev at : Timestamp
  at = sys.format_javascript_iso_string now

  reconcile_run-IsStep :
      (run : RunRecord) (c : Reconciliation)
      → c.summary.mode ≡ startup
      → has_loop c.repos.db.loops run ≡ true
      → (reconcile_run sys executions now run c).error ≡ none
      → IsStep at (backed (run ∷ [])) (left (run ∷ [])) c (reconcile_run sys executions now run c)
  unfolding reconcile_run evaluate_stale_run_candidate
  reconcile_run-IsStep run c m h e =
      let at_startup : Reconciliation = record c {
        summary = record c.summary { mode = startup };
      } in
      elim (Bool-cases (has_active_exec run executions)) [
        | inl k ↦ rw (m, k) (interrupt_run-IsStep run at at_startup h (rw (m, k) at e))
        | inr k ↦
            rw (m, k)
              (record { summary = one_skipped at_startup.summary; runs = refl; loops = refl })
      ]

  IsStep-cons :
      (run : RunRecord) (runs : List RunRecord) (c next last : Reconciliation)
      → IsStep at (backed (run ∷ [])) (left (run ∷ [])) c next
      → IsStep at (backed runs) (left runs) next last
      → IsStep at (backed (run ∷ runs)) (left (run ∷ runs)) c last
  IsStep-cons run runs c next last i j = elim (Bool-cases (has_active_exec run executions)) [
    | inl k ↦ rw k (record {
      summary =
          j.summary ∙ rw i.summary (rw k (counted_cons run (backed runs) (left runs) c.summary));
      runs = j.runs ∙ rw i.runs (rw k refl);
      loops = j.loops ∙ i.loops;
    })
    | inr k ↦ rw k (record {
      summary = j.summary ∙ rw i.summary (rw k (counted_skip (backed runs) (left runs) c.summary));
      runs = j.runs ∙ rw i.runs (rw k refl);
      loops = j.loops ∙ i.loops;
    })
  ]

  pub reconcile_runs-IsStep :
      (ctx : Context)
      → ((k : ℕ) → ctx k ≡ false)
      → (runs : List RunRecord) (c : Reconciliation) → c.summary.mode ≡ startup
      → all (has_loop c.repos.db.loops) runs ≡ true
      → (reconcile_runs sys ctx executions now runs c).error ≡ none
      → IsStep at (backed runs) (left runs) c (reconcile_runs sys ctx executions now runs c)
  unfolding reconcile_runs
  reconcile_runs-IsStep ctx calm [] c m h e = record {
    summary = sym (nothing_counted c.summary);
    runs = refl;
    loops = refl;
  }
  reconcile_runs-IsStep ctx calm (run ∷ runs) c m h e =
      let polled : Reconciliation = record c { polls = c.polls + 1 } in
      let next = reconcile_run sys executions now run polled in
      elim (Option-cases next.error) [
        | inl k ↦
            (let i = reconcile_run-IsStep run polled m (ground arith) k in
              rw (calm c.polls, k, reconcile_runs)
                (IsStep-cons run runs c next _
                  (record { summary = i.summary; runs = i.runs; loops = i.loops })
                  (reconcile_runs-IsStep ctx calm runs next
                    (ap (λ (s : StaleRunReconcileSummary). s.mode) i.summary ∙ m)
                    (rw i.loops (ground arith)) (rw (calm c.polls, k, reconcile_runs) at e))))
        | inr (x, k) ↦
            (let failed : some x ≡ none = rw (calm c.polls, k, reconcile_runs, k) at e in
              absurd (ground arith))
      ]
