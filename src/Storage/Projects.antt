-- ===== src/Storage/Projects.antt =====
-- crates/looper-storage/src/repos/projects.rs. `INSERT OR REPLACE` deletes the old row of the project,
-- and with `PRAGMA foreign_keys=ON` the deletion cascades to the loops and queue items of the
-- project and to the runs and queue items of those loops (migrations/V1__initial.sql).
pub mod Replaced
pub mod Kept
use looper_rust.Prelude.{
  String, ◌==◌, Bool, true, not, ◌&&◌, ◌||◌, Option, none, some, List, [], ◌∷◌, ◌++◌, any, keep,
  map, is_less, if◌then◌else◌,
}
use looper_rust.Storage.Schema.{Timestamp, QueueItemRecord, LoopRecord, ProjectRecord, Db}
use looper_rust.Storage.Sql.{sql_eq, order_by}
use looper_rust.Storage.Runs.{RunRecord, Repositories, detach}

-- the loops of a project
abbrev pub is_of_project : String → LoopRecord → Bool
is_of_project id l = l.project_id == id

abbrev pub is_loop_of : String → List LoopRecord → String → Bool
is_loop_of id loops loop_id = any (λ (l : LoopRecord). is_of_project id l && l.id == loop_id) loops

abbrev pub has_lost_loop : String → List LoopRecord → Option String → Bool
has_lost_loop id loops none = Bool.false
has_lost_loop id loops (some loop_id) = is_loop_of id loops loop_id

-- the queue items that go with a project: its own, and those of its loops
abbrev pub goes_with : String → List LoopRecord → QueueItemRecord → Bool
goes_with id loops q = sql_eq q.project_id id || has_lost_loop id loops q.loop_id

-- the deletion of the row of a project, with the rows that depend on it
unfoldable pub delete_cascade : String → Repositories → Repositories
delete_cascade id s =
    let loops = s.db.loops in
    let gone = λ (r : RunRecord). is_loop_of id loops r.loop_id in
    record s {
      db = record s.db {
        projects = keep (λ (p : ProjectRecord). not (p.id == id)) s.db.projects;
        loops = keep (λ l. not (is_of_project id l)) loops;
        queue_items = keep (λ q. not (goes_with id loops q)) s.db.queue_items;
      };
      runs = keep (λ r. not (gone r)) s.runs;
      agent_executions = map (detach (keep gone s.runs)) s.agent_executions;
    }

abbrev pub with_project : ProjectRecord → Repositories → Repositories
with_project new s = record s { db = record s.db { projects = s.db.projects ++ new ∷ [] } }

unfoldable pub upsert : ProjectRecord → Repositories → Repositories
upsert new s =
    if any (λ (p : ProjectRecord). p.id == new.id) s.db.projects
    then with_project new (delete_cascade new.id s)
    else with_project new s

unfoldable pub get_by_id : String → List ProjectRecord → Option ProjectRecord
get_by_id id [] = none
get_by_id id (p ∷ projects) = if p.id == id then some p else get_by_id id projects

abbrev pub by_name : ProjectRecord → ProjectRecord → Bool
by_name a b = is_less a.name b.name

unfoldable pub list : List ProjectRecord → List ProjectRecord
list projects = order_by by_name projects

-- whether the project was there, and the store
unfoldable pub archive : String → Timestamp → Db → Bool × Db
archive id updated_at db = (
  any (λ (p : ProjectRecord). p.id == id) db.projects,
  record db {
    projects =
        map
          (λ (p : ProjectRecord).
            if p.id == id then record p { archived = true; updated_at = updated_at } else p)
          db.projects;
  },
)
