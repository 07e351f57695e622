-- ===== src/Storage/Locks.antt =====
-- crates/looper-storage/src/repos/locks.rs: leases on a key, one row for each key.
pub mod Leases
use looper_rust.Prelude.{
  String, ◌==◌, Bool, true, not, ◌&&◌, Option, none, some, List, [], ◌∷◌, ◌++◌, any, keep, map, leb,
  ltb, if◌then◌else◌,
}
use looper_rust.Storage.Schema.{Timestamp, LockRecord, Db}
use looper_rust.Storage.Sql.{order_by}

unfoldable pub find_lock : String → List LockRecord → Option LockRecord
find_lock key [] = none
find_lock key (l ∷ rows) = if l.key == key then some l else find_lock key rows

unfoldable pub get : Db → String → Option LockRecord
get db key = find_lock key db.locks

-- the row that `ON CONFLICT(key) DO UPDATE` leaves
abbrev pub taken_over : LockRecord → LockRecord → LockRecord
taken_over new l = record l {
  owner = new.owner;
  reason = new.reason;
  expires_at = new.expires_at;
  updated_at = new.updated_at;
}

-- `WHERE locks.expires_at <= ?4`, where `?4` is the `expires_at` of the new record
abbrev pub gives_way : LockRecord → LockRecord → Bool
gives_way new l = l.key == new.key && leb l.expires_at new.expires_at

unfoldable pub acquire : LockRecord → Db → Bool × Db
acquire new db =
    if any (λ l. l.key == new.key) db.locks
    then (
      any (gives_way new) db.locks,
      record db { locks = map (λ l. if gives_way new l then taken_over new l else l) db.locks },
    )
    else (true, record db { locks = db.locks ++ new ∷ [] })

unfoldable pub release : String → Db → Db
release key db = record db { locks = keep (λ l. not (l.key == key)) db.locks }

abbrev pub is_held_by : String → String → LockRecord → Bool
is_held_by key owner l = l.key == key && l.owner == owner

unfoldable pub refresh : LockRecord → Db → Bool × Db
refresh new db = (
  any (is_held_by new.key new.owner) db.locks,
  record db {
    locks = map (λ l. if is_held_by new.key new.owner l then taken_over new l else l) db.locks;
  },
)

abbrev pub by_expiry : LockRecord → LockRecord → Bool
by_expiry a b = ltb a.expires_at b.expires_at

unfoldable pub list_expired : Timestamp → Db → List LockRecord
list_expired now db = order_by by_expiry (keep (λ l. leb l.expires_at now) db.locks)

unfoldable pub list_active : Timestamp → Db → List LockRecord
list_active now db = order_by by_expiry (keep (λ l. ltb now l.expires_at) db.locks)
