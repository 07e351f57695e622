-- ===== src/Storage/Update.antt =====
-- crates/looper-storage/src/repos/queue.rs: the statements that update queue items.
use looper_rust.Prelude.{
  ℕ, String, ◌==◌, Bool, not, ◌&&◌, Option, none, some, List, keep, length, ltb, ℤ,
}
use looper_rust.Storage.Schema.{Timestamp, QueueItemRecord, Db, Result, ok, ◌>>=◌, is_active}
use looper_rust.Storage.Sql.{sql_eq, best, update_where}

-- what `conn.execute` returns: the number of rows
abbrev pub rows_affected : List QueueItemRecord × Db → Result (ℕ × Db)
rows_affected (rows, db) = ok (length rows, db)

abbrev pub no_result : List QueueItemRecord × Db → Result Db
no_result (rows, db) = ok db

pub record QueueMarkRetryInput : Type 0 where
  pub id : String
  pub available_at : Timestamp
  pub attempts : ℤ
  pub error_message : Option String
  pub error_kind : String
  pub updated_at : Timestamp

pub record QueueFailInput : Type 0 where
  pub id : String
  pub attempts : ℤ
  pub finished_at : Timestamp
  pub error_message : Option String
  pub error_kind : String
  pub updated_at : Timestamp

unfoldable pub cleanup_stale_queued : Timestamp → String → Db → Result (ℕ × Db)
cleanup_stale_queued finished_at reason db =
    update_where (λ q. q.status == "queued" && ltb finished_at q.available_at)
      (λ q. record q {
        status = "cancelled";
        finished_at = some finished_at;
        last_error = some reason;
      })
      db
    >>= rows_affected

unfoldable pub complete : String → Timestamp → Db → Result Db
complete id finished_at db =
    update_where (λ q. q.id == id)
      (λ q. record q {
        status = "completed";
        finished_at = some finished_at;
        updated_at = finished_at;
      })
      db
    >>= no_result

unfoldable pub update_lock_key : String → String → Timestamp → Db → Result Db
update_lock_key id lock_key updated_at db =
    update_where (λ q. q.id == id)
      (λ q. record q { lock_key = some lock_key; updated_at = updated_at }) db
    >>= no_result

unfoldable pub mark_retry : QueueMarkRetryInput → Db → Result Db
mark_retry input db =
    update_where (λ q. q.id == input.id)
      (λ q. record q {
        status = "queued";
        available_at = input.available_at;
        attempts = input.attempts;
        last_error = input.error_message;
        last_error_kind = some input.error_kind;
        updated_at = input.updated_at;
      })
      db
    >>= no_result

unfoldable pub fail : QueueFailInput → Db → Result Db
fail input db =
    update_where (λ q. q.id == input.id)
      (λ q. record q {
        status = "manual_intervention";
        attempts = input.attempts;
        finished_at = some input.finished_at;
        last_error = input.error_message;
        last_error_kind = some input.error_kind;
        updated_at = input.updated_at;
      })
      db
    >>= no_result

-- `SET status='queued', available_at=?, updated_at=?`
abbrev pub queued_again : Timestamp → QueueItemRecord → QueueItemRecord
queued_again t q = record q { status = "queued"; available_at = t; updated_at = t }

unfoldable pub requeue_running_by_loop : String → Timestamp → Db → Result (ℕ × Db)
requeue_running_by_loop loop_id queued_at db =
    update_where (λ q. sql_eq q.loop_id loop_id && q.status == "running") (queued_again queued_at)
      db
    >>= rows_affected

-- `SELECT id FROM queue_items WHERE loop_id=? AND status=? ORDER BY updated_at DESC LIMIT 1`
abbrev pub latest_of_status : String → String → Db → Option QueueItemRecord
latest_of_status loop_id status db =
    best (λ a b. ltb b.updated_at a.updated_at)
      (keep (λ q. sql_eq q.loop_id loop_id && q.status == status) db.queue_items)

abbrev pub is_row : Option QueueItemRecord → QueueItemRecord → Bool
is_row none q = Bool.false
is_row (some c) q = q.id == c.id

unfoldable pub requeue_latest_cancelled_by_loop : String → Timestamp → Db → Result (ℕ × Db)
requeue_latest_cancelled_by_loop loop_id queued_at db =
    update_where (is_row (latest_of_status loop_id "cancelled" db)) (queued_again queued_at) db
    >>= rows_affected

unfoldable pub requeue_latest_failed_by_loop : String → Timestamp → Db → Result (ℕ × Db)
requeue_latest_failed_by_loop loop_id queued_at db =
    update_where (is_row (latest_of_status loop_id "failed" db)) (queued_again queued_at) db
    >>= rows_affected

abbrev pub is_failed_of : String → String → QueueItemRecord → Bool
is_failed_of loop_id queue_id q =
    sql_eq q.loop_id loop_id && (q.id == queue_id && q.status == "failed")

unfoldable pub requeue_failed_by_id : String → String → Timestamp → Db → Result (ℕ × Db)
requeue_failed_by_id loop_id queue_id queued_at db =
    update_where (is_failed_of loop_id queue_id) (queued_again queued_at) db >>= rows_affected

unfoldable pub requeue_failed_by_id_with_attempts :
    String → String → Timestamp → ℤ → Db → Result (ℕ × Db)
requeue_failed_by_id_with_attempts loop_id queue_id queued_at attempts db =
    update_where (is_failed_of loop_id queue_id)
      (λ q. record q {
        status = "queued";
        available_at = queued_at;
        updated_at = queued_at;
        attempts = attempts;
      })
      db
    >>= rows_affected

-- `SET status='cancelled', finished_at=?, last_error=?, updated_at=?`
abbrev pub cancelled : Timestamp → Option String → QueueItemRecord → QueueItemRecord
cancelled finished_at reason q = record q {
  status = "cancelled";
  finished_at = some finished_at;
  last_error = reason;
  updated_at = finished_at;
}

unfoldable pub cancel_by_loop : String → Timestamp → Option String → Db → Result (ℕ × Db)
cancel_by_loop loop_id finished_at reason db =
    update_where (λ q. sql_eq q.loop_id loop_id && is_active q) (cancelled finished_at reason) db
    >>= rows_affected

unfoldable pub cancel_by_project : String → Timestamp → Option String → Db → Result (ℕ × Db)
cancel_by_project project_id finished_at reason db =
    update_where (λ q. sql_eq q.project_id project_id && is_active q) (cancelled finished_at reason)
      db
    >>= rows_affected

unfoldable pub cancel_by_id : String → Timestamp → Option String → Db → Result (ℕ × Db)
cancel_by_id id finished_at reason db =
    update_where (λ q. q.id == id && is_active q) (cancelled finished_at reason) db
    >>= rows_affected

unfoldable pub cancel_active_by_loop_except :
    String → String → Timestamp → Option String → Db → Result (ℕ × Db)
cancel_active_by_loop_except loop_id keep_id finished_at reason db =
    update_where (λ q. sql_eq q.loop_id loop_id && (is_active q && not (q.id == keep_id)))
      (cancelled finished_at reason) db
    >>= rows_affected
