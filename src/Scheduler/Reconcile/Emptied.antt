-- ===== src/Scheduler/Reconcile/Emptied.antt =====
-- The queue after `reconcile_stale_runs` of crates/looper-scheduler/src/recovery.rs at startup.
use looper_rust.Prelude.{
  ℕ, ◌+◌, ◌==◌, Bool, false, ◌≡◌, refl, sym, ◌∙◌, ap, none, List, [], ◌∷◌, map, any, any-false_imp,
  keep, arith, Bool-cases, inl, inr, if◌then◌else◌,
}
use looper_rust.Storage.Schema.{QueueItemRecord, Timestamp, Db, LoopRecord, is_active}
use looper_rust.Storage.WellFormed.{IsWellFormed}
use looper_rust.Storage.Cancelled.{is_work_of}
use looper_rust.Storage.Runs.{
  RunRecord, AgentExecutionRecord, Repositories, upsert, list_by_status, list_active,
}
use looper_rust.Scheduler.Reconcile.{
  System, Context, Reconciliation, startup, evaluate_stale_run_candidate, has_active_exec,
  interrupt, interrupt_run, reconcile_run, reconcile_runs, reconcile_stale_runs,
}
use looper_rust.Scheduler.Reconcile.Cancelled.{
  stopped, has_failed, repair_queue_items_for_run-cancels, repair-IsWellFormed,
}
use looper_rust.Scheduler.Reconcile.Startup.{taken, same_tests}

abbrev pub is_failed : QueueItemRecord → Bool
is_failed q = q.status == "failed"

-- active work of the loop of one of the runs
abbrev pub is_work_of_any : List RunRecord → QueueItemRecord → Bool
is_work_of_any runs q = any (λ (r : RunRecord). is_work_of r.loop_id q) runs

abbrev pub stop_work : Timestamp → List RunRecord → QueueItemRecord → QueueItemRecord
stop_work t runs q = if is_work_of_any runs q then stopped t q else q

stopped_idle :
    (t : Timestamp) (runs : List RunRecord) (q : QueueItemRecord)
    → is_work_of_any runs (stopped t q) ≡ false
unfolding is_active
stopped_idle t [] q = refl
stopped_idle t (r ∷ runs) q = ground (arith, stopped_idle t runs q)

stop_both :
    (t : Timestamp) (run : RunRecord) (runs : List RunRecord) (rows : List QueueItemRecord)
    → map (stop_work t runs) (map (stop_work t (run ∷ [])) rows)
      ≡ map (stop_work t (run ∷ runs)) rows
stop_both t run runs [] = refl
stop_both t run runs (q ∷ rows) = elim (Bool-cases (is_work_of run.loop_id q)) [
  | inl e ↦ rw (e, stopped_idle t runs q, stop_both t run runs rows) refl
  | inr e ↦ rw (e, stop_both t run runs rows) refl
]

stop_one :
    (t : Timestamp) (run : RunRecord) (rows : List QueueItemRecord)
    → map (λ (q : QueueItemRecord). if is_work_of run.loop_id q then stopped t q else q) rows
      ≡ map (stop_work t (run ∷ [])) rows
stop_one t run [] = refl
stop_one t run (q ∷ rows) = elim (Bool-cases (is_work_of run.loop_id q)) [
  | inl e ↦ rw (e, stop_one t run rows) refl
  | inr e ↦ rw (e, stop_one t run rows) refl
]

stop_nothing : (t : Timestamp) (rows : List QueueItemRecord) → rows ≡ map (stop_work t []) rows
stop_nothing t [] = refl
stop_nothing t (q ∷ rows) = ap (λ ys. q ∷ ys) (stop_nothing t rows)

still_unfailed :
    (t : Timestamp) (runs : List RunRecord) (rows : List QueueItemRecord)
    → any is_failed rows ≡ false
    → any is_failed (map (stop_work t runs) rows) ≡ false
still_unfailed t runs [] h = refl
still_unfailed t runs (q ∷ rows) h = elim (Bool-cases (is_work_of_any runs q)) [
  | inl e ↦ rw e (still_unfailed t runs rows (ground arith))
  | inr e ↦ rw e (ground (arith, still_unfailed t runs rows))
]

interrupt-db : (run : RunRecord) (t : Timestamp) (s : Repositories) → (interrupt run t s).db ≡ s.db
unfolding interrupt upsert
interrupt-db run t s =
    elim (Bool-cases (any (λ (l : LoopRecord). l.id == run.loop_id) s.db.loops)) [
      | inl e ↦ rw e refl
      | inr e ↦ rw e refl
    ]

-- a round without an error that stopped the work of the runs `done`
record HasStopped (t : Timestamp) (done : List RunRecord) (c c' : Reconciliation) : Type 0 where
  calm : c'.error ≡ none
  mode : c'.summary.mode ≡ startup
  items : c'.repos.db.queue_items ≡ map (stop_work t done) c.repos.db.queue_items
  wf : IsWellFormed c'.repos.db

interrupt_run-HasStopped :
    (run : RunRecord) (t : Timestamp) (c : Reconciliation)
    → c.summary.mode ≡ startup
    → IsWellFormed c.repos.db
    → any is_failed c.repos.db.queue_items ≡ false
    → HasStopped t (run ∷ []) c (interrupt_run run t c)
unfolding interrupt_run
interrupt_run-HasStopped run t c m w n =
    let same = interrupt-db run t c.repos in
    let db = (interrupt run t c.repos).db in
    let w' : IsWellFormed db = rw same w in
    let n' : any (has_failed run.loop_id) db.queue_items ≡ false =
      any-false_imp is_failed (has_failed run.loop_id) db.queue_items (λ q h. ground arith)
        (rw same n) in
    let (e, rows) = repair_queue_items_for_run-cancels run.loop_id t db w' n' in
    record {
      calm = e;
      mode = rw (e, interrupt_run) m;
      items =
          rows
          ∙ stop_one t run db.queue_items
          ∙ ap (λ (x : Db). map (stop_work t (run ∷ [])) x.queue_items) same;
      wf = repair-IsWellFormed run.loop_id t db w' n';
    }

module _ (sys : System) (executions : List AgentExecutionRecord) (now : ℕ) where
  abbrev backed : List RunRecord → List RunRecord
  backed runs = keep (λ r. has_active_exec r executions) runs

  abbrev at : Timestamp
  at = sys.format_javascript_iso_string now

  reconcile_run-HasStopped :
      (run : RunRecord) (c : Reconciliation)
      → c.error ≡ none
      → c.summary.mode ≡ startup
      → IsWellFormed c.repos.db
      → any is_failed c.repos.db.queue_items ≡ false
      → HasStopped at (backed (run ∷ [])) c (reconcile_run sys executions now run c)
  unfolding reconcile_run evaluate_stale_run_candidate
  reconcile_run-HasStopped run c e m w n =
      let at_startup : Reconciliation = record c {
        summary = record c.summary { mode = startup };
      } in
      elim (Bool-cases (has_active_exec run executions)) [
        | inl k ↦ rw (m, k) (interrupt_run-HasStopped run at at_startup refl w n)
        | inr k ↦
            rw (m, k)
              (record {
                calm = e;
                mode = refl;
                items = stop_nothing at c.repos.db.queue_items;
                wf = w;
              })
      ]

  HasStopped-cons :
      (run : RunRecord) (runs : List RunRecord) (c next last : Reconciliation)
      → HasStopped at (backed (run ∷ [])) c next
      → HasStopped at (backed runs) next last
      → HasStopped at (backed (run ∷ runs)) c last
  HasStopped-cons run runs c next last i j = elim (Bool-cases (has_active_exec run executions)) [
    | inl k ↦ rw k (record {
      calm = j.calm;
      mode = j.mode;
      items = j.items ∙ rw i.items (rw k (stop_both at run (backed runs) c.repos.db.queue_items));
      wf = j.wf;
    })
    | inr k ↦ rw k (record {
      calm = j.calm;
      mode = j.mode;
      items =
          j.items
          ∙ rw i.items (
              rw k (
                ap (map (stop_work at (backed runs)))
                  (sym (stop_nothing at c.repos.db.queue_items))));
      wf = j.wf;
    })
  ]

  reconcile_runs-HasStopped :
      (ctx : Context)
      → ((k : ℕ) → ctx k ≡ false)
      → (runs : List RunRecord) (c : Reconciliation) → c.error ≡ none
      → c.summary.mode ≡ startup
      → IsWellFormed c.repos.db
      → any is_failed c.repos.db.queue_items ≡ false
      → HasStopped at (backed runs) c (reconcile_runs sys ctx executions now runs c)
  unfolding reconcile_runs
  reconcile_runs-HasStopped ctx calm [] c e m w n = record {
    calm = e;
    mode = m;
    items = stop_nothing at c.repos.db.queue_items;
    wf = w;
  }
  reconcile_runs-HasStopped ctx calm (run ∷ runs) c e m w n =
      let polled : Reconciliation = record c { polls = c.polls + 1 } in
      let next = reconcile_run sys executions now run polled in
      let i = reconcile_run-HasStopped run polled e m w n in
      let n' : any is_failed next.repos.db.queue_items ≡ false =
        rw i.items (still_unfailed at (backed (run ∷ [])) c.repos.db.queue_items n) in
      rw (calm c.polls, i.calm, reconcile_runs)
        (HasStopped-cons run runs c next _
          (record { calm = i.calm; mode = i.mode; items = i.items; wf = i.wf })
          (reconcile_runs-HasStopped ctx calm runs next i.calm i.mode i.wf n'))

-- Of a well-formed queue without a failed item, a reconciliation at startup that is not cancelled
-- raises no error; it cancels the queued and running items of the loops of the runs that it
-- interrupts, puts none of them back into the queue, and leaves all other items as they are.
pub reconcile_stale_runs-empties :
    (sys : System) (now : ℕ) (ctx : Context) (polls : ℕ) (s : Repositories)
    → ((k : ℕ) → ctx k ≡ false)
    → IsWellFormed s.db
    → any is_failed s.db.queue_items ≡ false
    → ((reconcile_stale_runs sys now startup ctx polls s).error ≡ none)
      × ((reconcile_stale_runs sys now startup ctx polls s).repos.db.queue_items
          ≡ map (stop_work (sys.format_javascript_iso_string now) (taken s)) s.db.queue_items)
unfolding reconcile_stale_runs
reconcile_stale_runs-empties sys now ctx polls s calm w n =
    let t = sys.format_javascript_iso_string now in
    let running = list_by_status "running" s in
    let i = reconcile_runs-HasStopped sys (list_active s) now ctx calm running _ refl refl w n in
    let k : keep (λ (r : RunRecord). has_active_exec r (list_active s)) running ≡ taken s =
      ap (λ (p : RunRecord → Bool). keep p running) (same_tests s) in
    (i.calm, i.items ∙ rw k refl)
