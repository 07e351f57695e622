-- ===== src/Storage/Cancelled.antt =====
-- `cancel_by_loop` of crates/looper-storage/src/repos/queue.rs on a well-formed table.
use looper_rust.Prelude.{
  String, Bool, true, false, ◌&&◌, ◌≡◌, refl, Option, List, [], ◌∷◌, any, keep, length, count, map,
  arith, if◌then◌else◌,
}
use looper_rust.Storage.Schema.{
  QueueItemRecord, Timestamp, Db, ok, is_active, is_indexed, row_ok, ◌>>=◌,
}
use looper_rust.Storage.Sql.{sql_eq, update_where}
use looper_rust.Storage.WellFormed.{
  IsWellFormed, IsSafeOn, after, update_where-ok, after-IsWellFormed,
}
use looper_rust.Storage.Update.{cancelled, cancel_by_loop, rows_affected}

abbrev pub is_work_of : String → QueueItemRecord → Bool
is_work_of loop_id q = sql_eq q.loop_id loop_id && is_active q

cancelled-row :
    (db : Db) (t : Timestamp) (reason : Option String) (q : QueueItemRecord)
    → row_ok db q ≡ true
    → row_ok db (cancelled t reason q) ≡ true
unfolding row_ok
cancelled-row db t reason q h = ground arith

cancelled-indexed :
    (t : Timestamp) (reason : Option String) (q : QueueItemRecord)
    → is_indexed (cancelled t reason q) ≡ true
    → is_indexed q ≡ true
unfolding is_indexed is_active
cancelled-indexed t reason q h = absurd (ground arith)

pub cancelled-IsSafeOn :
    (db : Db) (p : QueueItemRecord → Bool) (t : Timestamp) (reason : Option String)
    → IsSafeOn db p (cancelled t reason)
cancelled-IsSafeOn db p t reason = record {
  same_id = λ q. refl;
  same_key = λ q. refl;
  still_indexed = λ q k h. cancelled-indexed t reason q h;
  row = cancelled-row db t reason;
}

length-selected :
    (f : QueueItemRecord → QueueItemRecord) (p : QueueItemRecord → Bool)
    (rows : List QueueItemRecord)
    → length (map f (keep p rows)) ≡ count p rows
length-selected f p [] = refl
length-selected f p (q ∷ rows) = ground (arith, length-selected f p rows)

-- the rows that a cancellation selects are those that pass no more
pub none_left :
    (p : QueueItemRecord → Bool) (t : Timestamp) (reason : Option String)
    → ((q : QueueItemRecord) → p (cancelled t reason q) ≡ false)
    → (rows : List QueueItemRecord)
    → any p (map (λ q. if p q then cancelled t reason q else q) rows) ≡ false
none_left p t reason h [] = refl
none_left p t reason h (q ∷ rows) = ground (arith, none_left p t reason h rows, h q)

-- a cancellation on a well-formed table
pub cancels :
    (p : QueueItemRecord → Bool) (t : Timestamp) (reason : Option String) (db : Db)
    → IsWellFormed db
    → (update_where p (cancelled t reason) db >>= rows_affected)
      ≡ ok (count p db.queue_items, after db p (cancelled t reason))
cancels p t reason db w =
    rw (update_where-ok db p (cancelled t reason) (cancelled-IsSafeOn db p t reason) w)
      (rw (length-selected (cancelled t reason) p db.queue_items) refl)

idle :
    (loop_id : String) (t : Timestamp) (reason : Option String) (q : QueueItemRecord)
    → is_work_of loop_id (cancelled t reason q) ≡ false
unfolding is_active
idle loop_id t reason q = ground arith

module _ (loop_id : String) (t : Timestamp) (reason : Option String) (db : Db) where
  abbrev pub without_work : Db
  without_work = after db (is_work_of loop_id) (cancelled t reason)

  -- all active items of the loop are cancelled, and counted
  pub cancel_by_loop-cancels :
      IsWellFormed db
      → cancel_by_loop loop_id t reason db
        ≡ ok (count (is_work_of loop_id) db.queue_items, without_work)
  unfolding cancel_by_loop
  cancel_by_loop-cancels w = cancels (is_work_of loop_id) t reason db w

  pub without_work-IsWellFormed : IsWellFormed db → IsWellFormed without_work
  without_work-IsWellFormed w =
      after-IsWellFormed db (is_work_of loop_id) (cancelled t reason)
        (cancelled-IsSafeOn db (is_work_of loop_id) t reason) w

  pub without_work-idle : any (is_work_of loop_id) without_work.queue_items ≡ false
  without_work-idle = none_left (is_work_of loop_id) t reason (idle loop_id t reason) db.queue_items
