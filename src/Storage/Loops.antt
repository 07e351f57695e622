-- ===== src/Storage/Loops.antt =====
-- crates/looper-storage/src/repos/loops.rs: the table of loops and the counter of their numbers.
-- The counter does not reach the largest i64.
pub mod Table
pub mod Found
use looper_rust.Prelude.{
  ℕ, suc, String, ◌==◌, Bool, not, ◌&&◌, Option, none, some, List, [], ◌∷◌, ◌++◌, any, keep, length,
  map, ℤ, pos, ltb_ℤ, eqb_ℤ, if◌then◌else◌,
}
use looper_rust.Storage.Schema.{
  Timestamp, LoopRecord, ProjectRecord, Db, Result, ok, err, not_found, unique_violation,
  constraint_violation, is_in, null_or,
}
use looper_rust.Storage.Sql.{order_by}

-- the CHECK and FOREIGN KEY clauses of `loops`
unfoldable pub loop_ok : Db → LoopRecord → Bool
loop_ok db l =
    is_in l.target_type ("project" ∷ "pull_request" ∷ "issue" ∷ [])
    && (null_or (λ n. ltb_ℤ (pos 0) n) l.pr_number
        && any (λ (p : ProjectRecord). p.id == l.project_id) db.projects)

-- `idx_loops_seq`
abbrev pub is_seq_taken : LoopRecord → List LoopRecord → Bool
is_seq_taken l loops = any (λ (x : LoopRecord). not (x.id == l.id) && eqb_ℤ x.seq l.seq) loops

abbrev pub has_id : String → LoopRecord → Bool
has_id id l = l.id == id

-- the UPDATE leaves `created_at` as it was
abbrev pub rewritten : LoopRecord → LoopRecord → LoopRecord
rewritten l x = if has_id l.id x then record l { created_at = x.created_at } else x

-- the UPDATE, and the INSERT if it found no row
abbrev pub written : LoopRecord → List LoopRecord → List LoopRecord
written l loops = if any (has_id l.id) loops then map (rewritten l) loops else loops ++ l ∷ []

unfoldable pub upsert : LoopRecord → Db → Result Db
upsert l db =
    if loop_ok db l
    then (if is_seq_taken l db.loops
        then err unique_violation
        else ok (record db { loops = written l db.loops }))
    else err constraint_violation

unfoldable pub update_status : String → String → Timestamp → Db → Result Db
update_status id status updated_at db =
    if any (has_id id) db.loops
    then ok (record db {
      loops =
          map
            (λ (x : LoopRecord).
              if has_id id x then record x { status = status; updated_at = updated_at } else x)
            db.loops;
    })
    else err (not_found id)

unfoldable pub find_loop : (LoopRecord → Bool) → List LoopRecord → Option LoopRecord
find_loop p [] = none
find_loop p (l ∷ loops) = if p l then some l else find_loop p loops

unfoldable pub get_by_id : String → Db → Option LoopRecord
get_by_id id db = find_loop (has_id id) db.loops

unfoldable pub get_by_seq : ℤ → Db → Option LoopRecord
get_by_seq seq db = find_loop (λ l. eqb_ℤ l.seq seq) db.loops

unfoldable pub allocate_seq : Db → ℤ × Db
allocate_seq db = (pos (suc db.loop_seq), record db { loop_seq = suc db.loop_seq })

abbrev pub by_seq : LoopRecord → LoopRecord → Bool
by_seq a b = ltb_ℤ a.seq b.seq

unfoldable pub list : Db → List LoopRecord
list db = order_by by_seq db.loops

abbrev pub is_unfinished_of : String → LoopRecord → Bool
is_unfinished_of project_id l =
    l.project_id == project_id && not (is_in l.status ("completed" ∷ "terminated" ∷ "stopped" ∷ []))

-- the number of rows, and the database
unfoldable pub terminate_by_project : String → Timestamp → Db → ℕ × Db
terminate_by_project project_id updated_at db = (
  length (keep (is_unfinished_of project_id) db.loops),
  record db {
    loops =
        map
          (λ (l : LoopRecord).
            if is_unfinished_of project_id l
            then record l { status = "terminated"; updated_at = updated_at }
            else l)
          db.loops;
  },
)
