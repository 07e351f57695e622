-- ===== src/Storage/Queue.antt =====
-- crates/looper-storage/src/repos/queue.rs: the reads of the queue, and the claims.
pub mod Claimed
pub mod Claim
pub mod Order
pub mod Rows
use looper_rust.Prelude.{
  ℕ, String, ◌==◌, Bool, true, false, not, ◌&&◌, ◌||◌, Option, none, some, List, [], ◌∷◌, any,
  count, keep, ltb, leb, ℤ, pos, ltb_ℤ, leb_ℤ, if◌then◌else◌,
}
use looper_rust.Storage.Schema.{
  Timestamp, QueueItemRecord, LockRecord, LoopRecord, ProjectRecord, Db, Result, ok, ◌>>=◌, is_in,
  is_active,
}
use looper_rust.Storage.Sql.{sql_eq, sql_eq_columns, best, update_where}

abbrev pub long_term_retry_attempt_threshold : ℤ
long_term_retry_attempt_threshold = pos 5

-- `EXISTS (SELECT 1 FROM locks l WHERE l.key = qi.lock_key AND l.expires_at > ?1)`
abbrev pub is_locked : Db → Timestamp → QueueItemRecord → Bool
is_locked db now q =
    any (λ (l : LockRecord). sql_eq q.lock_key l.key && ltb now l.expires_at) db.locks

-- a fixer behind a queued or running reviewer of its loop
abbrev pub waits_for_reviewer : Db → QueueItemRecord → Bool
waits_for_reviewer db q =
    q.type == "fixer"
    && any (λ r. sql_eq_columns r.loop_id q.loop_id && (r.type == "reviewer" && is_active r))
        db.queue_items

abbrev pub of_archived_project : Db → QueueItemRecord → Bool
of_archived_project db q =
    any (λ (p : ProjectRecord). sql_eq q.project_id p.id && p.archived) db.projects

abbrev pub of_blocked_loop : Db → QueueItemRecord → Bool
of_blocked_loop db q =
    any
      (λ (l : LoopRecord).
        sql_eq q.loop_id l.id
        && is_in l.status ("completed" ∷ "cancelled" ∷ "failed" ∷ "paused" ∷ []))
      db.loops

unfoldable pub scheduled_queue_conditions : Db → Timestamp → QueueItemRecord → Bool
scheduled_queue_conditions db now q =
    q.status == "queued"
    && (leb q.available_at now
        && (not (is_locked db now q)
            && (not (waits_for_reviewer db q)
                && (not (of_archived_project db q) && not (of_blocked_loop db q)))))

-- `ORDER BY qi.priority ASC, qi.available_at ASC, qi.created_at ASC`
unfoldable pub before : QueueItemRecord → QueueItemRecord → Bool
before a b =
    if ltb_ℤ a.priority b.priority
    then true
    else if ltb_ℤ b.priority a.priority
    then false
    else if ltb a.available_at b.available_at
    then true
    else if ltb b.available_at a.available_at
    then false
    else ltb a.created_at b.created_at

-- reads

unfoldable pub find_by : (QueueItemRecord → Bool) → List QueueItemRecord → Option QueueItemRecord
find_by p [] = none
find_by p (q ∷ rows) = if p q then some q else find_by p rows

unfoldable pub get_by_id : Db → String → Option QueueItemRecord
get_by_id db id = find_by (λ q. q.id == id) db.queue_items

unfoldable pub find_active_by_dedupe : Db → String → Option QueueItemRecord
find_active_by_dedupe db key = find_by (λ q. q.dedupe_key == key && is_active q) db.queue_items

unfoldable pub find_active_by_loop_id : Db → String → Option QueueItemRecord
find_active_by_loop_id db l = find_by (λ q. sql_eq q.loop_id l && is_active q) db.queue_items

unfoldable pub get_latest_by_loop_id : Db → String → Option QueueItemRecord
get_latest_by_loop_id db l =
    best (λ a b. ltb b.created_at a.created_at) (keep (λ q. sql_eq q.loop_id l) db.queue_items)

unfoldable pub count_by_status : Db → String → ℕ
count_by_status db s = count (λ q. q.status == s) db.queue_items

unfoldable pub count_active_by_loop_id : Db → String → ℕ
count_active_by_loop_id db l = count (λ q. sql_eq q.loop_id l && is_active q) db.queue_items

unfoldable pub count_by_loop_id_and_status : Db → String → String → ℕ
count_by_loop_id_and_status db l s = count (λ q. sql_eq q.loop_id l && q.status == s) db.queue_items

-- claims

-- `COALESCE(started_at, ?)`
abbrev pub coalesce : Option Timestamp → Timestamp → Timestamp
coalesce none t = t
coalesce (some s) t = s

abbrev pub claimed : Timestamp → String → QueueItemRecord → QueueItemRecord
claimed now by q = record q {
  status = "running";
  claimed_by = some by;
  claimed_at = some now;
  started_at = some (coalesce q.started_at now);
  updated_at = now;
}

abbrev pub candidates : (QueueItemRecord → Bool) → Timestamp → Db → List QueueItemRecord
candidates extra now db = keep (λ q. scheduled_queue_conditions db now q && extra q) db.queue_items

abbrev pub first_row : List QueueItemRecord × Db → Result (Option QueueItemRecord × Db)
first_row ([], db) = ok (none, db)
first_row (q ∷ _, db) = ok (some q, db)

unfoldable pub claim_next_impl :
    (QueueItemRecord → Bool) → Timestamp → String → Db → Result (Option QueueItemRecord × Db)
claim_next_impl extra now by db = elim (best before (candidates extra now db)) [
  | none ↦ ok (none, db)
  | some c ↦
      update_where (λ q. q.id == c.id && q.status == "queued") (claimed now by) db >>= first_row
]

unfoldable pub claim_next : Timestamp → String → Db → Result (Option QueueItemRecord × Db)
claim_next = claim_next_impl (λ q. true)

abbrev pub is_null : Option String → Bool
is_null none = true
is_null (some _) = false

abbrev pub non_long_term : QueueItemRecord → Bool
non_long_term q = ltb_ℤ q.attempts long_term_retry_attempt_threshold || is_null q.last_error_kind

abbrev pub kind_in : Option String → List String → Bool
kind_in none ks = false
kind_in (some k) ks = is_in k ks

abbrev pub long_term : QueueItemRecord → Bool
long_term q =
    leb_ℤ long_term_retry_attempt_threshold q.attempts
    && kind_in q.last_error_kind
        ("retryable_transient" ∷ "retryable_after_resume" ∷ "non_retryable" ∷ [])

unfoldable pub claim_next_non_long_term_retry :
    Timestamp → String → Db → Result (Option QueueItemRecord × Db)
claim_next_non_long_term_retry = claim_next_impl non_long_term

unfoldable pub claim_next_long_term_retry :
    Timestamp → String → Db → Result (Option QueueItemRecord × Db)
claim_next_long_term_retry = claim_next_impl long_term

unfoldable pub claim_next_of_type :
    Timestamp → String → String → Db → Result (Option QueueItemRecord × Db)
claim_next_of_type now by queue_type = claim_next_impl (λ q. q.type == queue_type) now by
