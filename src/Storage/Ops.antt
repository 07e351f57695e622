-- ===== src/Storage/Ops.antt =====
-- What the insertions of crates/looper-storage/src/repos/queue.rs leave in the table.
pub mod Inserted
pub mod Deduped
pub mod Created
use looper_rust.Storage.Schema.{Db, Result, ok, err}

-- an error leaves the database as it was
abbrev pub settle : Result Db → Db → Db
settle (ok db') db = db'
settle (err e) db = db
