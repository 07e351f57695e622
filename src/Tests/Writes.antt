-- ===== src/Tests/Writes.antt =====
-- Writes on the queue, and what they free and leave.
use looper_rust.Prelude.{◌≡◌, refl, ◌+◌, not, true, none, some, [], ◌∷◌, Memᴰ, arith}
use looper_rust.Storage.Schema.{
  Db, QueueItemRecord, ok, is_indexed, is_active, row_ok, ids_ok, index_ok, index_clash,
}
use looper_rust.Storage.WellFormed.{IsWellFormed}
use looper_rust.Storage.Queue.{
  get_by_id, find_by, count_by_status, non_long_term, long_term, claim_next_impl,
  claim_next_non_long_term_retry, claim_next_long_term_retry, scheduled_queue_conditions, before,
}
use looper_rust.Storage.Sql.{best, best_from, update_where}
use looper_rust.Storage.Insert.{create_or_get_active_by_dedupe}
use looper_rust.Storage.Ops.Created.{is_live, HasOneLive, is_there, rows_after, create-HasOneLive}
use looper_rust.Scheduler.Claim.{claim_and_run, claim_up_to}
use looper_rust.Scheduler.Claim.Drained.{IsIdle, claim_and_run-drains}
use looper_rust.Runner.Completion.{closed, mark_queue_terminal}
use looper_rust.Runner.Completion.Slots.{mark_queue_terminal-frees}
use looper_rust.Tests.Samples.{worker_item, idle_db, sample, sample-IsWellFormed}
use looper_rust.Tests.Claims.{handlers}

abbrev running_db : Db
running_db = record idle_db { queue_items = record worker_item { status = "running" } ∷ [] }

running_db-IsWellFormed : IsWellFormed running_db
unfolding row_ok ids_ok index_ok
running_db-IsWellFormed = record { rows_hold = refl; ids_differ = refl; index_holds = refl }

mark_queue_terminal-frees_example :
    IsWellFormed (mark_queue_terminal 30 "q1" "failed" none running_db)
    × (get_by_id (mark_queue_terminal 30 "q1" "failed" none running_db) "q1"
        ≡ some (closed 30 "failed" none (record worker_item { status = "running" })))
    × (count_by_status running_db "running"
        ≡ count_by_status (mark_queue_terminal 30 "q1" "failed" none running_db) "running" + 1)
unfolding get_by_id find_by
mark_queue_terminal-frees_example =
    mark_queue_terminal-frees 30 "failed" none refl "q1" running_db
      (record worker_item { status = "running" }) running_db-IsWellFormed refl

claim_and_run-drains_example :
    IsIdle non_long_term 20 (claim_and_run handlers 20 9 sample).db
    × IsIdle long_term 20 (claim_and_run handlers 20 9 sample).db
unfolding claim_and_run claim_up_to claim_next_non_long_term_retry claim_next_long_term_retry
    claim_next_impl best best_from before scheduled_queue_conditions update_where row_ok index_ok
    index_clash is_indexed is_active
claim_and_run-drains_example =
    claim_and_run-drains handlers 20 9 sample sample-IsWellFormed (omega arith)

-- a task of a type that the index does not cover, and another one of its key
abbrev snapshot_item : QueueItemRecord
snapshot_item = record worker_item { id = "q9"; type = "snapshot" }

abbrev snapshot_db : Db
snapshot_db = record idle_db { queue_items = record snapshot_item { id = "q8" } ∷ [] }

snapshot_db-HasOneLive : HasOneLive snapshot_db.queue_items
snapshot_db-HasOneLive key = ground arith

create-HasOneLive_example :
    ((item : QueueItemRecord) × ((create_or_get_active_by_dedupe snapshot_item snapshot_db
          ≡ ok (
            (item, not (is_there snapshot_item snapshot_db.queue_items)),
            record snapshot_db { queue_items = rows_after snapshot_item snapshot_db.queue_items },
          ))
        × (is_live snapshot_item.dedupe_key item ≡ true)
        × Memᴰ item (rows_after snapshot_item snapshot_db.queue_items)))
    × HasOneLive (rows_after snapshot_item snapshot_db.queue_items)
unfolding row_ok
create-HasOneLive_example =
    create-HasOneLive snapshot_item snapshot_db refl refl refl snapshot_db-HasOneLive
