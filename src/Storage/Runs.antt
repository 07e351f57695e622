-- ===== src/Storage/Runs.antt =====
-- crates/looper-storage/src/repos/runs.rs, and `list_active` of src/repos/agent_executions.rs.
-- Of an execution only the columns are kept that the recovery reads. `INSERT OR REPLACE` deletes
-- the rows that clash, and with `PRAGMA foreign_keys=ON` such a deletion sets `run_id` to NULL in
-- the executions of the deleted runs (ON DELETE SET NULL in migrations/V1__initial.sql).

use looper_rust.Prelude.{
  String, ◌==◌, Bool, not, ◌&&◌, ◌||◌, Option, none, List, [], ◌∷◌, ◌++◌, any, keep, map, ltb,
  if◌then◌else◌, ℤ,
}
use looper_rust.Storage.Schema.{
  Timestamp, Db, LoopRecord, Result, ok, err, constraint_violation, is_in,
}
use looper_rust.Storage.Sql.{sql_eq, best, order_by}

pub record RunRecord : Type 0 where
  pub id : String
  pub loop_id : String
  pub status : String
  pub current_step : Option String
  pub last_completed_step : Option String
  pub checkpoint_json : Option String
  pub summary : Option String
  pub error_message : Option String
  pub agent_vendor : Option String
  pub model : Option String
  pub started_at : Timestamp
  pub last_heartbeat_at : Option Timestamp
  pub ended_at : Option Timestamp
  pub created_at : Timestamp
  pub updated_at : Timestamp

pub record AgentExecutionRecord : Type 0 where
  pub id : String
  pub run_id : Option String
  pub status : String
  pub pid : Option ℤ
  pub command_json : Option String
  pub started_at : Timestamp

-- the tables of the store that the recovery works with
pub record Repositories : Type 0 where
  pub db : Db
  pub runs : List RunRecord
  pub agent_executions : List AgentExecutionRecord

-- the rows that clash with a new one: on the primary key, or on `idx_runs_one_running_per_loop`
abbrev pub is_replaced : RunRecord → RunRecord → Bool
is_replaced new r =
    r.id == new.id
    || (new.status == "running" && (r.status == "running" && r.loop_id == new.loop_id))

abbrev pub detach : List RunRecord → AgentExecutionRecord → AgentExecutionRecord
detach deleted e =
    if any (λ (r : RunRecord). sql_eq e.run_id r.id) deleted then record e { run_id = none } else e

unfoldable pub upsert : RunRecord → Repositories → Result Repositories
upsert new s =
    if any (λ (l : LoopRecord). l.id == new.loop_id) s.db.loops
    then ok (record s {
      runs = keep (λ r. not (is_replaced new r)) s.runs ++ new ∷ [];
      agent_executions = map (detach (keep (is_replaced new) s.runs)) s.agent_executions;
    })
    else err constraint_violation

abbrev pub newest_first : RunRecord → RunRecord → Bool
newest_first a b = ltb b.created_at a.created_at

unfoldable pub list_by_status : String → Repositories → List RunRecord
list_by_status status s = order_by newest_first (keep (λ r. r.status == status) s.runs)

unfoldable pub list_by_loop : String → Repositories → List RunRecord
list_by_loop loop_id s = order_by newest_first (keep (λ r. r.loop_id == loop_id) s.runs)

unfoldable pub get_latest_by_loop_id : String → Repositories → Option RunRecord
get_latest_by_loop_id loop_id s = best newest_first (keep (λ r. r.loop_id == loop_id) s.runs)

unfoldable pub has_running_by_loop_id : String → Repositories → Bool
has_running_by_loop_id loop_id s = any (λ r. r.loop_id == loop_id && r.status == "running") s.runs

-- agent_executions.rs
unfoldable pub list_active : Repositories → List AgentExecutionRecord
list_active s =
    order_by (λ (a b : AgentExecutionRecord). ltb a.started_at b.started_at)
      (keep (λ e. is_in e.status ("running" ∷ "cancelling" ∷ [])) s.agent_executions)

-- the runs that no run of the same loop was created after. SQL leaves their order open, and this
-- is the order of the table.
unfoldable pub list_latest_by_loop_ids : List String → Repositories → List RunRecord
list_latest_by_loop_ids loop_ids s =
    keep
      (λ (r : RunRecord).
        any (λ id. id == r.loop_id) loop_ids
        && not (any (λ (x : RunRecord). x.loop_id == r.loop_id && newest_first x r) s.runs))
      s.runs
