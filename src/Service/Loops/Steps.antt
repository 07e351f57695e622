-- ===== src/Service/Loops/Steps.antt =====
-- The outcomes of the calls of crates/looper-service/src/loop_service.rs, case by case.
use looper_rust.Prelude.{
  ℕ, ℤ, String, Bool, true, false, ◌||◌, ◌≡◌, refl, ◌⊎◌, inl, inr, Option, some, List, any, ◌&&◌,
  arith, Bool-cases, Option-cases,
}
use looper_rust.Storage.Schema.{Timestamp, LoopRecord, Db}
use looper_rust.Storage.Schema
use looper_rust.Storage.Loops
use looper_rust.Types.LoopStatus
use looper_rust.Types.LoopStatus.{LoopStatus, completed, terminated, paused, as_str, from_str}
use looper_rust.Storage.Sql.{update_where}
use looper_rust.Storage.Update.{cancel_by_loop}
use looper_rust.Service.Outcome.{
  Service, ServiceError, loop_not_found, cannot_pause, cannot_terminate, ◌>>=◌, ◌>>◌, return, guard,
  or_fail, reads, statement, writes, status_of,
}
use looper_rust.Storage.Projects
use looper_rust.Types.LoopType
use looper_rust.Types.LoopType.{supports_target_type}
use looper_rust.Types.LoopTarget.{loop_target_key}
use looper_rust.Service.Loops.{
  is_schedulable_status_str, conflicts, new_loop, CreateInput, TransitionInput, PauseInput,
  PauseResult, create, transition_status, pause, terminate, moved, halted, is_status,
}

pub Stored-cases :
    {A : Type 0} (r : Schema.Result A)
    → ((a : A) × (r ≡ Schema.ok a)) ⊎ ((e : Schema.StorageError) × (r ≡ Schema.err e))
Stored-cases (Schema.ok a) = inl (a, refl)
Stored-cases (Schema.err e) = inr (e, refl)

pub Outcome-cases :
    (r : LoopStatus.Outcome)
    → ((s : LoopStatus) × (r ≡ LoopStatus.ok s))
      ⊎ ((e : LoopStatus.StatusError) × (r ≡ LoopStatus.err e))
Outcome-cases (LoopStatus.ok s) = inl (s, refl)
Outcome-cases (LoopStatus.err e) = inr (e, refl)

-- The loops that a call leaves which writes the loop of an id, if that is found in a status that
-- allows it: as they were, or as the write leaves them.
pub data Writes (id : String) (allowed : LoopStatus → Bool) (change : LoopRecord → LoopRecord)
    (db r : Db) : Type 0 where
  refused : r.loops ≡ db.loops → Writes id allowed change db r
  wrote :
      (l : LoopRecord) (s : LoopStatus) (db' : Db)
      → Loops.get_by_id id db ≡ some l
      → from_str l.status ≡ LoopStatus.ok s
      → allowed s ≡ true
      → Loops.upsert (change l) db ≡ Schema.ok db'
      → r.loops ≡ db'.loops
      → Writes id allowed change db r

-- the body that `pause` and `terminate` share
abbrev pub halt :
    (LoopStatus → Bool)
    → (LoopStatus → ServiceError)
    → LoopStatus
    → PauseInput
    → Timestamp
    → Service PauseResult
halt allowed error status input now = do
  found ← reads (Loops.get_by_id input.loop_id)
  l ← or_fail found (loop_not_found input.loop_id)
  from_status ← status_of (from_str l.status)
  guard (allowed from_status) (error from_status)
  writes (Loops.upsert (halted status now l))
  n ← statement (cancel_by_loop input.loop_id now input.reason)
  return (record { loop = halted status now l; cancelled_queue_items = n })

abbrev pub may_pause : LoopStatus → Bool
may_pause s = is_status s paused || LoopStatus.can_transition_to s paused

pub pause-halt :
    (input : PauseInput) (now : Timestamp)
    → pause input now ≡ halt may_pause cannot_pause paused input now
unfolding pause
pause-halt input now = refl

pub terminate-halt :
    (input : PauseInput) (now : Timestamp)
    → terminate input now
      ≡ halt (λ s. LoopStatus.can_transition_to s terminated) cannot_terminate terminated input now
unfolding terminate
terminate-halt input now = refl

pub cancel-loops :
    (id : String) (now : Timestamp) (reason : Option String) (db db' : Db) (n : ℕ)
    → cancel_by_loop id now reason db ≡ Schema.ok (n, db')
    → db'.loops ≡ db.loops
unfolding cancel_by_loop update_where
cancel-loops id now reason db db' n h = ground arith

pub transition_status-Writes :
    (id : String) (input : TransitionInput) (now : Timestamp) (db : Db)
    → Writes id
        (λ s. LoopStatus.can_transition_to s input.status)
        (moved input now)
        db
        (transition_status id input now db).1
transition_status-Writes id input now db = elim (Option-cases (Loops.get_by_id id db)) [
  | inl e ↦ refused (unfold transition_status in rw e refl)
  | inr (l, e) ↦ elim (Outcome-cases (from_str l.status)) [
    | inr (x, f) ↦ refused (unfold transition_status in rw (e, f) refl)
    | inl (s, f) ↦ elim (Bool-cases (LoopStatus.can_transition_to s input.status)) [
      | inr g ↦ refused (unfold transition_status in rw (e, f, g) refl)
      | inl g ↦ elim (Stored-cases (Loops.upsert (moved input now l) db)) [
        | inr (x, k) ↦ refused (unfold transition_status in rw (e, f, g, k) refl)
        | inl (db', k) ↦ wrote l s db' e f g k (unfold transition_status in rw (e, f, g, k) refl)
      ]
    ]
  ]
]

pub halt-Writes :
    (allowed : LoopStatus → Bool) (error : LoopStatus → ServiceError) (status : LoopStatus)
    (input : PauseInput) (now : Timestamp) (db : Db)
    → Writes input.loop_id allowed (halted status now) db (halt allowed error status input now db).1
halt-Writes allowed error status input now db =
    elim (Option-cases (Loops.get_by_id input.loop_id db)) [
      | inl e ↦ refused (rw e refl)
      | inr (l, e) ↦ elim (Outcome-cases (from_str l.status)) [
        | inr (x, f) ↦ refused (rw (e, f) refl)
        | inl (s, f) ↦ elim (Bool-cases (allowed s)) [
          | inr g ↦ refused (rw (e, f, g) refl)
          | inl g ↦ elim (Stored-cases (Loops.upsert (halted status now l) db)) [
            | inr (x, k) ↦ refused (rw (e, f, g, k) refl)
            | inl (db', k) ↦
                elim (Stored-cases (cancel_by_loop input.loop_id now input.reason db')) [
                  | inl ((n, db''), c) ↦ wrote l s db' e f g k (
                      rw (e, f, g, k, c) (cancel-loops input.loop_id now input.reason db' db'' n c))
                  | inr (x, c) ↦ wrote l s db' e f g k (rw (e, f, g, k, c) refl)
                ]
          ]
        ]
      ]
    ]

-- Whether a new loop would compete with a schedulable one.
abbrev pub competes : (ℤ → String) → CreateInput → List LoopRecord → Bool
competes to_string input loops =
    is_schedulable_status_str (as_str input.status)
    && any
        (conflicts input.project_id (LoopType.as_str input.type)
          (loop_target_key to_string input.target))
        loops

-- What `create` leaves: no new loop, or the new one behind its guards.
pub data Creates (to_string : ℤ → String) (input : CreateInput) (now : Timestamp) (id : String)
    (db r : Db) : Type 0 where
  declined : r.loops ≡ db.loops → Creates to_string input now id db r
  created :
      competes to_string input (Loops.list db) ≡ false
      → Loops.upsert
          (new_loop to_string input now id (Loops.allocate_seq db).0)
          (Loops.allocate_seq db).1
        ≡ Schema.ok r
      → Creates to_string input now id db r

pub create-Creates :
    (to_string : ℤ → String) (input : CreateInput) (now : Timestamp) (id : String) (db : Db)
    → Creates to_string input now id db (create to_string input now id db).1
create-Creates to_string input now id db =
    elim (Bool-cases (supports_target_type input.type input.target.target_type)) [
      | inr a ↦ declined (unfold create in rw a refl)
      | inl a ↦ elim (Option-cases (Projects.get_by_id input.project_id db.projects)) [
        | inl b ↦ declined (unfold create in rw (a, b) refl)
        | inr (p, b) ↦ elim (Bool-cases (competes to_string input (Loops.list db))) [
          | inl c ↦ declined (unfold create in rw (a, b, c) refl)
          | inr c ↦
              (let l = new_loop to_string input now id (Loops.allocate_seq db).0 in
                elim (Stored-cases (Loops.upsert l (Loops.allocate_seq db).1)) [
                  | inr (x, d) ↦
                      declined
                        (unfold create in rw (a, b, c, d) (unfold Loops.allocate_seq in refl))
                  | inl (db', d) ↦ created c (unfold create in rw (a, b, c, d) refl)
                ])
        ]
      ]
    ]
