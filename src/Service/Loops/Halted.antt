-- ===== src/Service/Loops/Halted.antt =====
-- `pause` and `terminate` of crates/looper-service/src/loop_service.rs over the queue.
use looper_rust.Prelude.{
  String, eq_iff, Bool, true, false, ◌≡◌, refl, sym, ◌∙◌, subst, some, any, count, map, arith,
  if◌then◌else◌,
}
use looper_rust.Storage.Schema.{Timestamp, LoopRecord, Db}
use looper_rust.Storage.Schema
use looper_rust.Storage.Loops
use looper_rust.Storage.Loops.{loop_ok, is_seq_taken, written, find_loop, has_id}
use looper_rust.Storage.Loops.Table.{
  get_by_id-upsert, upsert_loop-IsWellFormed, stored, find_loop-id,
}
use looper_rust.Storage.WellFormed.{IsWellFormed}
use looper_rust.Storage.Cancelled.{
  is_work_of, cancel_by_loop-cancels, without_work, without_work-IsWellFormed, without_work-idle,
}
use looper_rust.Storage.Update.{cancelled}
use looper_rust.Types.LoopStatus
use looper_rust.Types.LoopStatus.{LoopStatus, paused, terminated, from_str, as_str}
use looper_rust.Service.Outcome.{Result, ok, ServiceError, cannot_pause, cannot_terminate}
use looper_rust.Service.Loops.{PauseInput, PauseResult, pause, terminate, halted}
use looper_rust.Service.Loops.Steps.{halt, may_pause, pause-halt, terminate-halt}
use looper_rust.Service.Loops.Sinks.{HasStatus}

-- a loop of the table, which keeps the constraints of its table
pub record IsStored (id : String) (l : LoopRecord) (db : Db) : Type 0 where
  pub found : Loops.get_by_id id db ≡ some l
  pub checked : loop_ok db l ≡ true
  pub seq_free : is_seq_taken l db.loops ≡ false

-- A call succeeded that took a loop out of work: its status is written, the result counts its
-- active queue items, which are cancelled, all other items stay as they were, none of the loop is
-- active, and the queue keeps its constraints.
pub record Halts (id : String) (status : LoopStatus) (input : PauseInput) (now : Timestamp)
    (l : LoopRecord) (db : Db) (r : Result PauseResult × Db) : Type 0 where
  pub result :
      r.0
      ≡ ok (record {
        loop = halted status now l;
        cancelled_queue_items = count (is_work_of id) db.queue_items;
      })
  pub status_written : HasStatus id status r.1
  pub items :
      r.1.queue_items
      ≡ map (λ q. if is_work_of id q then cancelled now input.reason q else q) db.queue_items
  pub idle : any (is_work_of id) r.1.queue_items ≡ false
  pub well_formed : IsWellFormed r.1

module _ (allowed : LoopStatus → Bool) (error : LoopStatus → ServiceError) (status : LoopStatus)
    (input : PauseInput) (now : Timestamp) (l : LoopRecord) (s : LoopStatus) (db : Db) where
  abbrev loops_written : Db
  loops_written = record db { loops = written (halted status now l) db.loops }

  upsert-succeeds :
      IsStored input.loop_id l db → Loops.upsert (halted status now l) db ≡ Schema.ok loops_written
  unfolding Loops.upsert loop_ok
  upsert-succeeds i = ground (arith, i.checked, i.seq_free)

  -- a write of a loop that is there keeps the time at which it was created
  row_written :
      IsStored input.loop_id l db
      → Loops.get_by_id input.loop_id (without_work input.loop_id now input.reason loops_written)
        ≡ some (halted status now l)
  unfolding Loops.get_by_id
  row_written i =
      let same_id : l.id ≡ input.loop_id = find_loop-id input.loop_id db.loops l i.found in
      let row =
        get_by_id-upsert (halted status now l) db loops_written (upsert-succeeds i) input.loop_id in
      let stays : stored (halted status now l) (find_loop (has_id l.id) db.loops)
          ≡ halted status now l =
        rw (same_id, i.found) (rw (sym same_id) refl) in
      row ∙ rw (stays, (eq_iff input.loop_id l.id).1 (sym same_id)) refl

  halt-Halts :
      IsWellFormed db
      → IsStored input.loop_id l db
      → from_str l.status ≡ LoopStatus.ok s
      → allowed s ≡ true
      → Halts input.loop_id status input now l db (halt allowed error status input now db)
  halt-Halts w i f g =
      let up = upsert-succeeds i in
      let w' = upsert_loop-IsWellFormed (halted status now l) db loops_written up w in
      let c = cancel_by_loop-cancels input.loop_id now input.reason loops_written w' in
      rw (i.found, f, g, up, c)
        (record {
          result = refl;
          status_written = (halted status now l, row_written i, refl);
          items = refl;
          idle = without_work-idle input.loop_id now input.reason loops_written;
          well_formed = without_work-IsWellFormed input.loop_id now input.reason loops_written w';
        })

module _ (input : PauseInput) (now : Timestamp) (l : LoopRecord) (s : LoopStatus) (db : Db)
    (w : IsWellFormed db) (i : IsStored input.loop_id l db)
    (f : from_str l.status ≡ LoopStatus.ok s) where
  -- On a well-formed table, pausing a loop that the store has in a status that may be paused
  -- succeeds: the loop is paused, the result counts its active queue items, these are cancelled and
  -- all other items stay as they were, none of the loop is active, and the queue keeps its
  -- constraints.
  pub pause-Halts :
      may_pause s ≡ true → Halts input.loop_id paused input now l db (pause input now db)
  pause-Halts g =
      subst (λ h. Halts input.loop_id paused input now l db (h db)) (sym (pause-halt input now))
        (halt-Halts may_pause cannot_pause paused input now l s db w i f g)

  -- The same of terminating a loop in a status that may be terminated.
  pub terminate-Halts :
      LoopStatus.can_transition_to s terminated ≡ true
      → Halts input.loop_id terminated input now l db (terminate input now db)
  terminate-Halts g =
      subst (λ h. Halts input.loop_id terminated input now l db (h db))
        (sym (terminate-halt input now))
        (halt-Halts (λ t. LoopStatus.can_transition_to t terminated) cannot_terminate terminated
          input now l s db w i f g)
