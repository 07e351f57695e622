-- ===== src/Service/Outcome.antt =====
-- crates/looper-service/src/error.rs, and how a service goes on: each step reads and writes the store,
-- and an error keeps what was written before it. The text of `ServiceError::Other` is the branch
-- that raises it.
use looper_rust.Prelude.{String, Bool, true, false, Option, none, some}
use looper_rust.Storage.Schema.{Db, StorageError}
use looper_rust.Storage.Schema
use looper_rust.Types.LoopStatus.{LoopStatus, StatusError}
use looper_rust.Types.LoopStatus
use looper_rust.Types.LoopType.{LoopType}
use looper_rust.Types.LoopTarget.{LoopTargetType}

pub data ServiceError : Type 0 where
  loop_not_found project_not_found : String → ServiceError
  active_loop_conflict : String → String → String → ServiceError
  domain : StatusError → ServiceError
  storage : StorageError → ServiceError
  cannot_target : LoopType → LoopTargetType → ServiceError
  invalid_loop_transition : LoopStatus → LoopStatus → ServiceError
  cannot_pause cannot_terminate : LoopStatus → ServiceError
  invalid_role : String → ServiceError
  -- the field, and whether it is missing or not positive
  number_required not_positive : String → ServiceError
  -- the branch
  invalid_project_id : String → ServiceError
  ambiguous_project_identifier config_managed_project project_repo_unresolved :
      String → ServiceError

pub data Result {ℓ} (A : Type ℓ) : Type ℓ where
  ok : A → Result A
  err : ServiceError → Result A

abbrev pub Service : Type 0 → Type 0
Service A = Db → Result A × Db

abbrev pub and_then : {A B : Type 0} → Result A × Db → (A → Service B) → Result B × Db
and_then (ok a, db) f = f a db
and_then (err e, db) f = (err e, db)

infixl 5 ◌>>=◌ ◌>>◌
abbrev pub ◌>>=◌ : {A B : Type 0} → Service A → (A → Service B) → Service B
◌>>=◌ m f db = and_then (m db) f

abbrev pub ◌>>◌ : {A B : Type 0} → Service A → Service B → Service B
m >> k = m >>= λ _. k

abbrev pub return : {A : Type 0} → A → Service A
return a db = (ok a, db)

abbrev pub fail : {A : Type 0} → ServiceError → Service A
fail e db = (err e, db)

abbrev pub guard : Bool → ServiceError → Service (Unit {0})
guard true e = return tt
guard false e = fail e

-- `.ok_or_else(|| …)?`
abbrev pub or_fail : {A : Type 0} → Option A → ServiceError → Service A
or_fail none e = fail e
or_fail (some a) e = return a

-- `…?` on a result that does not touch the store
abbrev pub lift : {A : Type 0} → Result A → Service A
lift (ok a) = return a
lift (err e) = fail e

-- a read of the store
abbrev pub reads : {A : Type 0} → (Db → A) → Service A
reads f db = (ok (f db), db)

abbrev pub lift_result : {A : Type 0} → Schema.Result (A × Db) → Db → Result A × Db
lift_result (Schema.ok (a, db')) db = (ok a, db')
lift_result (Schema.err e) db = (err (storage e), db)

-- a statement with a result, and one without
abbrev pub statement : {A : Type 0} → (Db → Schema.Result (A × Db)) → Service A
statement f db = lift_result (f db) db

abbrev pub write_result : Schema.Result Db → Db → Result (Unit {0}) × Db
write_result (Schema.ok db') db = (ok tt, db')
write_result (Schema.err e) db = (err (storage e), db)

abbrev pub writes : (Db → Schema.Result Db) → Service (Unit {0})
writes f db = write_result (f db) db

abbrev pub status_of : LoopStatus.Outcome → Service LoopStatus
status_of (LoopStatus.ok s) = return s
status_of (LoopStatus.err e) = fail (domain e)
