-- ===== src/Runner/Completion.antt =====
-- crates/looper-runner/src/completion.rs: how a runner closes its queue item and its loop. Errors of
-- the store are logged and the database stays as it was; the lock on the store is never poisoned.
pub mod Slots
use looper_rust.Prelude.{
  String, ◌==◌, Bool, true, false, not, ◌&&◌, Option, none, some, List, any, if◌then◌else◌,
}
use looper_rust.Storage.Schema.{QueueItemRecord, Timestamp, Db}
use looper_rust.Storage.Queue.{get_by_id, find_active_by_dedupe}
use looper_rust.Storage.Insert.{upsert}
use looper_rust.Storage.Loops
use looper_rust.Storage.Ops.{settle}

abbrev pub if_given : Option String → Option String → Option String
if_given none old = old
if_given (some e) old = some e

-- the record that is written; the test of the old status in the source has an empty body
abbrev pub closed : Timestamp → String → Option String → QueueItemRecord → QueueItemRecord
closed now status last_error qi = record qi {
  status = status;
  finished_at = some now;
  updated_at = now;
  last_error = if_given last_error qi.last_error;
}

unfoldable pub mark_queue_terminal : Timestamp → String → String → Option String → Db → Db
mark_queue_terminal now item_id status last_error db = elim (get_by_id db item_id) [
  | none ↦ db
  | some qi ↦ settle (upsert (closed now status last_error qi) db) db
]

unfoldable pub mark_loop_status : Timestamp → String → String → Db → Db
mark_loop_status now loop_id status db = elim (Loops.get_by_id loop_id db) [
  | none ↦ db
  | some lp ↦ settle (Loops.upsert (record lp { status = status; updated_at = now }) db) db
]

abbrev pub is_found {ℓ} : {A : Type ℓ} → Option A → Bool
is_found none = false
is_found (some a) = true

unfoldable pub queue_dedupe_blocks_rediscovery : String → Db → Bool
queue_dedupe_blocks_rediscovery dedupe_key db =
    if is_found (find_active_by_dedupe db dedupe_key)
    then true
    else any (λ q. q.dedupe_key == dedupe_key && q.status == "completed") db.queue_items
