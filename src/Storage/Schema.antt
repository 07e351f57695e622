-- ===== src/Storage/Schema.antt =====
-- The rows of the tables that the queue works with (crates/looper-storage/src/record.rs), the
-- constraints of the schema (crates/looper-storage/migrations) and the errors of the store.
-- A timestamp column holds a text. The store only copies and compares such texts, in SQLite's
-- total order, so a timestamp is modelled by its rank in that order, a number.
use looper_rust.Prelude.{
  ℕ, String, ◌==◌, Bool, true, false, not, ◌&&◌, ◌||◌, Option, none, some, List, [], ◌∷◌, any, ℤ,
  pos, negsuc, ltb_ℤ, leb_ℤ, eqb_ℤ,
}

abbrev pub Timestamp : Type 0
Timestamp = ℕ

pub record QueueItemRecord : Type 0 where
  pub id : String
  pub project_id : Option String
  pub loop_id : Option String
  pub type : String
  pub target_type : String
  pub target_id : String
  pub repo : Option String
  pub pr_number : Option ℤ
  pub dedupe_key : String
  pub priority : ℤ
  pub status : String
  pub available_at : Timestamp
  pub attempts : ℤ
  pub max_attempts : ℤ
  pub claimed_by : Option String
  pub claimed_at : Option Timestamp
  pub started_at : Option Timestamp
  pub finished_at : Option Timestamp
  pub lock_key : Option String
  pub payload_json : Option String
  pub last_error : Option String
  pub last_error_kind : Option String
  pub created_at : Timestamp
  pub updated_at : Timestamp

pub record LockRecord : Type 0 where
  pub key : String
  pub owner : String
  pub reason : Option String
  pub expires_at : Timestamp
  pub created_at : Timestamp
  pub updated_at : Timestamp

pub record LoopRecord : Type 0 where
  pub id : String
  pub seq : ℤ
  pub project_id : String
  pub type : String
  pub target_type : String
  pub target_id : Option String
  pub repo : Option String
  pub pr_number : Option ℤ
  pub status : String
  pub config_json : Option String
  pub metadata_json : Option String
  pub last_run_at : Option Timestamp
  pub next_run_at : Option Timestamp
  pub created_at : Timestamp
  pub updated_at : Timestamp

-- The columns of `projects` that the modelled statements read.
pub record ProjectRecord : Type 0 where
  pub id : String
  pub name : String
  pub repo_path : String
  pub base_branch : Option String
  pub archived : Bool
  pub metadata_json : Option String
  pub created_at : Timestamp
  pub updated_at : Timestamp

pub record Db : Type 0 where
  pub queue_items : List QueueItemRecord
  pub locks : List LockRecord
  pub loops : List LoopRecord
  pub projects : List ProjectRecord
  -- the counter `loop_seq`, zero while it has no row
  pub loop_seq : ℕ

pub data StorageError : Type 0 where
  not_found : String → StorageError
  -- a UNIQUE index other than a primary key (extended code 2067)
  unique_violation : StorageError
  -- a primary key, a CHECK or a foreign key
  constraint_violation : StorageError

pub data Result {ℓ} (A : Type ℓ) : Type ℓ where
  ok : A → Result A
  err : StorageError → Result A

infixl 5 ◌>>=◌
abbrev pub ◌>>=◌ {ℓ κ} : {A : Type ℓ} {B : Type κ} → Result A → (A → Result B) → Result B
ok a >>= f = f a
err e >>= f = err e

-- `x IN (…)`
abbrev pub is_in : String → List String → Bool
is_in x [] = false
is_in x (y ∷ ys) = x == y || is_in x ys

-- `status IN ('queued','running')`
unfoldable pub is_active : QueueItemRecord → Bool
is_active q = q.status == "queued" || q.status == "running"

-- the rows of the partial index `idx_queue_items_one_active_dedupe`, after migration V5
unfoldable pub is_indexed : QueueItemRecord → Bool
is_indexed q = is_in q.type ("planner" ∷ "reviewer" ∷ "worker" ∷ "fixer" ∷ []) && is_active q

-- a null column passes
abbrev pub null_or {ℓ} : {A : Type ℓ} → (A → Bool) → Option A → Bool
null_or p none = true
null_or p (some a) = p a

-- the CHECK and FOREIGN KEY clauses of `queue_items`
unfoldable pub row_ok : Db → QueueItemRecord → Bool
row_ok db q =
    null_or (λ n. ltb_ℤ (pos 0) n) q.pr_number
    && (ltb_ℤ (pos 0) q.priority
        && (leb_ℤ (pos 0) q.attempts
            && ((eqb_ℤ q.max_attempts (negsuc 0) || ltb_ℤ (pos 0) q.max_attempts)
                && (is_in q.status (
                      "queued" ∷ "running" ∷ "completed" ∷ "failed" ∷ "cancelled"
                      ∷ "manual_intervention" ∷ [])
                    && (null_or
                          (λ k. is_in k (
                            "retryable_transient" ∷ "retryable_after_resume" ∷ "non_retryable"
                            ∷ "manual_intervention" ∷ []))
                          q.last_error_kind
                        && (null_or (λ p. any (λ (r : ProjectRecord). r.id == p) db.projects)
                              q.project_id
                            && null_or (λ l. any (λ (r : LoopRecord). r.id == l) db.loops)
                                q.loop_id))))))

-- two rows that the index keeps apart
unfoldable pub index_clash : QueueItemRecord → QueueItemRecord → Bool
index_clash a b = is_indexed a && (is_indexed b && a.dedupe_key == b.dedupe_key)

unfoldable pub index_ok : List QueueItemRecord → Bool
index_ok [] = true
index_ok (q ∷ rows) = not (any (index_clash q) rows) && index_ok rows

-- the primary key
unfoldable pub ids_ok : List QueueItemRecord → Bool
ids_ok [] = true
ids_ok (q ∷ rows) = not (any (λ r. r.id == q.id) rows) && ids_ok rows
