-- ===== src/Scheduler/Reconcile/Cancelled.antt =====
-- `repair_queue_items_for_run` of crates/looper-scheduler/src/recovery.rs on the queue.
use looper_rust.Prelude.{
  String, ◌==◌, Bool, true, false, ◌&&◌, ◌≡◌, refl, ap, false-ne-true, and-true, length, Bool-cases,
  inl, inr, none, some, List, [], ◌∷◌, any, keep, map, arith, if◌then◌else◌,
}
use looper_rust.Storage.Schema.{QueueItemRecord, Timestamp, Db, ok, is_active, row_ok}
use looper_rust.Storage.Sql.{sql_eq, best}
use looper_rust.Storage.WellFormed.{
  IsWellFormed, IsSafeOn, after, update_where-ok, after-IsWellFormed,
}
use looper_rust.Storage.Cancelled.{is_work_of, cancelled-IsSafeOn, cancel_by_loop-cancels}
use looper_rust.Storage.Update.{
  cancelled, requeue_latest_failed_by_loop, latest_of_status, queued_again,
}
use looper_rust.Scheduler.Reconcile.{repair_queue_items_for_run}

-- what the cancellation writes
abbrev pub stopped : Timestamp → QueueItemRecord → QueueItemRecord
stopped t q = cancelled t (some "recovery interrupted") q

abbrev pub has_failed : String → QueueItemRecord → Bool
has_failed loop_id q = sql_eq q.loop_id loop_id && q.status == "failed"

queued_again-row :
    (db : Db) (t : Timestamp) (q : QueueItemRecord)
    → row_ok db q ≡ true
    → row_ok db (queued_again t q) ≡ true
unfolding row_ok
queued_again-row db t q h = ground arith

never-IsSafeOn : (db : Db) (t : Timestamp) → IsSafeOn db (λ q. false) (queued_again t)
never-IsSafeOn db t = record {
  same_id = λ q. refl;
  same_key = λ q. refl;
  still_indexed = λ q k h. absurd (false-ne-true k);
  row = queued_again-row db t;
}

map_same {ℓ} : {A : Type ℓ} (xs : List A) → map (λ x. x) xs ≡ xs
map_same [] = refl
map_same (x ∷ xs) = ap (λ ys. x ∷ ys) (map_same xs)

-- a cancelled row has not failed
still_none :
    (loop_id : String) (t : Timestamp) (rows : List QueueItemRecord)
    → any (has_failed loop_id) rows ≡ false
    → keep (has_failed loop_id) (map (λ q. if is_work_of loop_id q then stopped t q else q) rows)
      ≡ []
still_none loop_id t [] h = refl
still_none loop_id t (q ∷ rows) h =
    let rest = still_none loop_id t rows (ground arith) in
    elim (Bool-cases (is_work_of loop_id q)) [
      | inl e ↦ rw e (ground (arith, and-true (sql_eq q.loop_id loop_id) (is_active q) e, rest))
      | inr e ↦ rw e (ground (arith, rest))
    ]

module _ (loop_id : String) (t : Timestamp) (db : Db) (w : IsWellFormed db)
    (n : any (has_failed loop_id) db.queue_items ≡ false) where
  abbrev middle : Db
  middle = after db (is_work_of loop_id) (stopped t)

  no_latest : latest_of_status loop_id "failed" middle ≡ none
  unfolding best
  no_latest = rw (still_none loop_id t db.queue_items n) refl

  requeues_none :
      requeue_latest_failed_by_loop loop_id t middle
      ≡ ok (
        length (map (queued_again t) (keep (λ q. false) middle.queue_items)),
        after middle (λ q. false) (queued_again t),
      )
  unfolding requeue_latest_failed_by_loop
  requeues_none = rw no_latest (
      rw
        (update_where-ok middle (λ q. false) (queued_again t) (never-IsSafeOn middle t)
          (after-IsWellFormed db (is_work_of loop_id) (stopped t)
            (cancelled-IsSafeOn db (is_work_of loop_id) t (some "recovery interrupted")) w))
        refl)

  -- When no item of the loop has failed before, the repair after an interrupted run succeeds and
  -- cancels the queued and running items of the loop; it puts none of them back into the queue, and
  -- leaves all other items as they are.
  pub repair_queue_items_for_run-cancels :
      ((repair_queue_items_for_run loop_id t db).0 ≡ none)
      × ((repair_queue_items_for_run loop_id t db).1.queue_items
          ≡ map (λ q. if is_work_of loop_id q then stopped t q else q) db.queue_items)
  unfolding repair_queue_items_for_run
  repair_queue_items_for_run-cancels =
      rw
        (
          cancel_by_loop-cancels loop_id t (some "recovery interrupted") db w,
          requeues_none,
          repair_queue_items_for_run,
        )
        (refl, map_same middle.queue_items)

  pub repair-IsWellFormed : IsWellFormed (repair_queue_items_for_run loop_id t db).1
  unfolding repair_queue_items_for_run
  repair-IsWellFormed =
      rw
        (
          cancel_by_loop-cancels loop_id t (some "recovery interrupted") db w,
          requeues_none,
          repair_queue_items_for_run,
        )
        (after-IsWellFormed middle (λ q. false) (queued_again t) (never-IsSafeOn middle t)
          (after-IsWellFormed db (is_work_of loop_id) (stopped t)
            (cancelled-IsSafeOn db (is_work_of loop_id) t (some "recovery interrupted")) w))
