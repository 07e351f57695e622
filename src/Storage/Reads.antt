-- ===== src/Storage/Reads.antt =====
-- crates/looper-storage/src/repos/queue.rs: the lists of the queue, in the order of the claims.
pub mod Agreed
use looper_rust.Prelude.{ℕ, ◌==◌, List, keep, ltb, ℤ, pos, negsuc}
use looper_rust.Storage.Schema.{QueueItemRecord, Timestamp, Db}
use looper_rust.Storage.Sql.{order_by, limit}
use looper_rust.Storage.Queue.{before, scheduled_queue_conditions}

-- `LIMIT ?`, where a negative number sets no limit
abbrev pub sql_limit {ℓ} : {A : Type ℓ} → ℤ → List A → List A
sql_limit (pos n) rows = limit n rows
sql_limit (negsuc n) rows = rows

unfoldable pub list : Db → List QueueItemRecord
list db = order_by (λ (a b : QueueItemRecord). ltb b.created_at a.created_at) db.queue_items

unfoldable pub list_queued : ℤ → Db → List QueueItemRecord
list_queued n db = sql_limit n (order_by before (keep (λ q. q.status == "queued") db.queue_items))

unfoldable pub list_scheduled : Timestamp → ℤ → Db → List QueueItemRecord
list_scheduled now n db =
    sql_limit n (order_by before (keep (scheduled_queue_conditions db now) db.queue_items))
