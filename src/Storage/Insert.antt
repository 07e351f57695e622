-- ===== src/Storage/Insert.antt =====
-- crates/looper-storage/src/repos/queue.rs: the statements that insert queue items.
use looper_rust.Prelude.{
  String, ◌==◌, Bool, true, false, not, ◌||◌, Option, none, some, [], ◌∷◌, ◌++◌, any, keep, map,
  if◌then◌else◌,
}
use looper_rust.Storage.Schema.{
  QueueItemRecord, Db, Result, ok, err, not_found, unique_violation, constraint_violation, row_ok,
  index_clash, ◌>>=◌,
}
use looper_rust.Storage.Queue.{get_by_id, find_active_by_dedupe}

-- `INSERT INTO queue_items … VALUES …`. The CHECKs come before the keys.
unfoldable pub insert_row : QueueItemRecord → Db → Result Db
insert_row q db =
    if row_ok db q
    then (if any (λ r. r.id == q.id) db.queue_items
        then err constraint_violation
        else if any (index_clash q) db.queue_items
        then err unique_violation
        else ok (record db { queue_items = db.queue_items ++ q ∷ [] }))
    else err constraint_violation

-- `.ok_or_else(|| StorageError::NotFound(…))`
abbrev pub or_not_found : Option QueueItemRecord → String → Result QueueItemRecord
or_not_found none key = err (not_found key)
or_not_found (some q) key = ok q

abbrev pub with_flag : Bool → Db → QueueItemRecord → Result ((QueueItemRecord × Bool) × Db)
with_flag b db q = ok ((q, b), db)

-- the arms of the `match` on the INSERT
abbrev pub after_insert : Result Db → QueueItemRecord → Db → Result ((QueueItemRecord × Bool) × Db)
after_insert (ok db') q db = or_not_found (get_by_id db' q.id) q.id >>= with_flag true db'
after_insert (err unique_violation) q db =
    or_not_found (find_active_by_dedupe db q.dedupe_key) q.dedupe_key >>= with_flag false db
after_insert (err e) q db = err e

unfoldable pub create_or_get_active_by_dedupe :
    QueueItemRecord → Db → Result ((QueueItemRecord × Bool) × Db)
create_or_get_active_by_dedupe q db = elim (find_active_by_dedupe db q.dedupe_key) [
  | some existing ↦ ok ((existing, false), db)
  | none ↦ after_insert (insert_row q db) q db
]

-- `ON CONFLICT(dedupe_key) … DO UPDATE SET …`: all columns but the id, the key and `created_at`
abbrev pub overwrite : QueueItemRecord → QueueItemRecord → QueueItemRecord
overwrite q r = record q { id = r.id; dedupe_key = r.dedupe_key; created_at = r.created_at }

-- `INSERT … ON CONFLICT DO UPDATE`. The conflict with the index is looked for before the primary
-- key is tested; the row that it names is overwritten.
unfoldable pub insert_or_overwrite : QueueItemRecord → Db → Result Db
insert_or_overwrite q db =
    if row_ok db q
    then (if any (index_clash q) db.queue_items
        then ok (record db {
          queue_items = map (λ r. if index_clash q r then overwrite q r else r) db.queue_items;
        })
        else insert_row q db)
    else err constraint_violation

-- the arms of the `match` on the upsert; it always writes a row when it succeeds
abbrev pub after_upsert : Result Db → QueueItemRecord → Db → Result ((QueueItemRecord × Bool) × Db)
after_upsert (ok db') q db = elim (get_by_id db' q.id) [
  | some inserted ↦ ok ((inserted, true), db')
  | none ↦
      or_not_found (find_active_by_dedupe db' q.dedupe_key) q.dedupe_key >>= with_flag false db'
]
after_upsert (err unique_violation) q db =
    or_not_found (find_active_by_dedupe db q.dedupe_key) q.dedupe_key >>= with_flag false db
after_upsert (err e) q db = err e

unfoldable pub upsert_active_by_dedupe_or_get_existing :
    QueueItemRecord → Db → Result ((QueueItemRecord × Bool) × Db)
upsert_active_by_dedupe_or_get_existing q db = after_upsert (insert_or_overwrite q db) q db

-- `INSERT OR REPLACE`: the rows that clash by the primary key or by the index are deleted first
unfoldable pub upsert : QueueItemRecord → Db → Result Db
upsert q db =
    if row_ok db q
    then ok (record db {
      queue_items = keep (λ r. not (r.id == q.id || index_clash q r)) db.queue_items ++ q ∷ [];
    })
    else err constraint_violation
