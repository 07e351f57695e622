-- ===== src/Scheduler/Reconcile/Written.antt =====
-- What the interruption of one run by crates/looper-scheduler/src/recovery.rs writes.
use looper_rust.Prelude.{
  ℕ, String, if◌then◌else◌, ◌==◌, Bool, true, not, ◌≡◌, refl, ◌∙◌, ap, some, List, [], ◌∷◌, ◌++◌,
  map, any, all, keep, arith, Bool-cases, inl, inr,
}
use looper_rust.Storage.Schema.{
  Timestamp, Db, LoopRecord, QueueItemRecord, Result, ok, err, ◌>>=◌, row_ok, index_ok,
}
use looper_rust.Service.Loops.Steps.{Stored-cases}
use looper_rust.Storage.Sql.{update_where}
use looper_rust.Storage.Update.{cancel_by_loop, requeue_latest_failed_by_loop, rows_affected}
use looper_rust.Storage.Runs.{RunRecord, Repositories, upsert, is_replaced}
use looper_rust.Scheduler.Reconcile.{interrupt, repair_queue_items_for_run}
use looper_rust.Scheduler.Reconcile.Interrupted.{ended_run}

-- the loop of the run is in the store
abbrev pub has_loop : List LoopRecord → RunRecord → Bool
has_loop loops run = any (λ (l : LoopRecord). l.id == run.loop_id) loops

-- a write that succeeds leaves the loops
abbrev KeepsLoops : Db → Result (ℕ × Db) → Type 0
KeepsLoops db (ok (n, db')) = db'.loops ≡ db.loops
KeepsLoops db (err e) = Unit

update-KeepsLoops :
    (p : QueueItemRecord → Bool) (f : QueueItemRecord → QueueItemRecord) (db : Db)
    → KeepsLoops db (update_where p f db >>= rows_affected)
unfolding update_where
update-KeepsLoops p f db =
    let rows = map (λ (q : QueueItemRecord). if p q then f q else q) db.queue_items in
    elim (Bool-cases (all (row_ok db) rows)) [
      | inr r ↦ rw r tt
      | inl r ↦ elim (Bool-cases (index_ok rows)) [ inr i ↦ rw (r, i) tt | inl i ↦ rw (r, i) refl ]
    ]

kept_loops :
    (db db' : Db) (n : ℕ) (r : Result (ℕ × Db))
    → KeepsLoops db r
    → r ≡ ok (n, db')
    → db'.loops ≡ db.loops
kept_loops db db' n r k e = rw e at k

pub repair-loops :
    (id : String) (t : Timestamp) (db : Db)
    → (repair_queue_items_for_run id t db).1.loops ≡ db.loops
unfolding repair_queue_items_for_run
repair-loops id t db = elim (Stored-cases (cancel_by_loop id t (some "recovery interrupted") db)) [
  | inr (e, h) ↦ rw (h, repair_queue_items_for_run) refl
  | inl ((n, db'), h) ↦
      (let k : db'.loops ≡ db.loops =
          kept_loops db db' n (cancel_by_loop id t (some "recovery interrupted") db)
            (unfold cancel_by_loop in update-KeepsLoops _ _ db) h in
        elim (Stored-cases (requeue_latest_failed_by_loop id t db')) [
          | inr (e, g) ↦ rw (h, g, repair_queue_items_for_run) k
          | inl ((m, db''), g) ↦
              rw (h, g, repair_queue_items_for_run)
                (kept_loops db' db'' m (requeue_latest_failed_by_loop id t db')
                    (unfold requeue_latest_failed_by_loop in update-KeepsLoops _ _ db') g
                  ∙ k)
        ])
]

keep-replaced :
    (t : Timestamp) (run : RunRecord) (rows : List RunRecord)
    → keep (λ (x : RunRecord). not (is_replaced (ended_run t run) x)) rows
      ≡ keep (λ (x : RunRecord). not (x.id == run.id)) rows
keep-replaced t run [] = refl
keep-replaced t run (x ∷ rows) = ground (arith, keep-replaced t run rows)

-- the row of an interrupted run
pub interrupt-runs :
    (run : RunRecord) (t : Timestamp) (s : Repositories)
    → has_loop s.db.loops run ≡ true
    → ((interrupt run t s).runs
        ≡ keep (λ (x : RunRecord). not (x.id == run.id)) s.runs ++ ended_run t run ∷ [])
      × ((interrupt run t s).db ≡ s.db)
unfolding interrupt upsert
interrupt-runs run t s h =
    rw h (ap (λ rows. rows ++ ended_run t run ∷ []) (keep-replaced t run s.runs), refl)
