-- ===== src/Storage/Projects/Kept.antt =====
-- `upsert` of crates/looper-storage/src/repos/projects.rs and the constraints of the queue.
use looper_rust.Prelude.{
  String, ◌==◌, eq_iff, Bool, true, false, not, ◌≡◌, refl, Option, none, some, List, [], ◌∷◌, ◌++◌,
  any, any-append, all, all_imp, keep, arith, Bool-cases, inl, inr, false-ne-true,
}
use looper_rust.Storage.Schema.{QueueItemRecord, LoopRecord, ProjectRecord, row_ok, null_or}
use looper_rust.Storage.Sql.{sql_eq}
use looper_rust.Storage.WellFormed.{IsWellFormed}
use looper_rust.Storage.Ops.Inserted.{ids_ok-keep, index_ok-keep}
use looper_rust.Storage.Runs.{Repositories}
use looper_rust.Storage.Projects.{
  is_of_project, has_lost_loop, goes_with, delete_cascade, upsert, with_project,
}

-- a kept item keeps its loop
loop_kept :
    (id : String) (loops : List LoopRecord) (o : Option String)
    → has_lost_loop id loops o ≡ false
    → null_or (λ l. any (λ (r : LoopRecord). r.id == l) loops) o ≡ true
    → null_or
        (λ l. any (λ (r : LoopRecord). r.id == l) (keep (λ l. not (is_of_project id l)) loops))
        o
      ≡ true
loop_kept id loops none h k = refl
loop_kept id [] (some l) h k = k
loop_kept id (x ∷ loops) (some l) h k = ground (arith, loop_kept id loops (some l))

-- an item that names another project keeps its project
project_kept :
    (new : ProjectRecord) (projects : List ProjectRecord) (o : Option String)
    → sql_eq o new.id ≡ false
    → null_or (λ p. any (λ (r : ProjectRecord). r.id == p) projects) o ≡ true
    → null_or
        (λ p.
          any
            (λ (r : ProjectRecord). r.id == p)
            (keep (λ (r : ProjectRecord). not (r.id == new.id)) projects ++ new ∷ []))
        o
      ≡ true
project_kept new projects none h k = refl
project_kept new [] (some p) h k = absurd (false-ne-true k)
project_kept new (x ∷ projects) (some p) h k =
    ground (
      arith,
      project_kept new projects (some p),
      eq_iff x.id p,
      eq_iff x.id new.id,
      eq_iff p new.id,
    )

project_stays :
    (new : ProjectRecord) (projects : List ProjectRecord) (o : Option String)
    → null_or (λ p. any (λ (r : ProjectRecord). r.id == p) projects) o ≡ true
    → null_or (λ p. any (λ (r : ProjectRecord). r.id == p) (projects ++ new ∷ [])) o ≡ true
project_stays new projects none h = refl
project_stays new projects (some p) h =
    ground (arith, any-append (λ (r : ProjectRecord). r.id == p) projects (new ∷ []))

all_kept {ℓ} :
    {A : Type ℓ} (p p' k : A → Bool) (xs : List A)
    → ((a : A) → k a ≡ false → p a ≡ true → p' a ≡ true)
    → all p xs ≡ true
    → all p' (keep (λ a. not (k a)) xs) ≡ true
all_kept p p' k [] f h = refl
all_kept p p' k (x ∷ xs) f h = ground (arith, f x, all_kept p p' k xs f)

row_kept :
    (new : ProjectRecord) (s : Repositories) (q : QueueItemRecord)
    → goes_with new.id s.db.loops q ≡ false
    → row_ok s.db q ≡ true
    → row_ok (with_project new (delete_cascade new.id s)).db q ≡ true
unfolding row_ok delete_cascade
row_kept new s q h k =
    let other : sql_eq q.project_id new.id ≡ false = ground arith in
    let held : has_lost_loop new.id s.db.loops q.loop_id ≡ false = ground arith in
    let p : null_or (λ p. any (λ (r : ProjectRecord). r.id == p) s.db.projects) q.project_id
        ≡ true =
      ground arith in
    let l : null_or (λ l. any (λ (r : LoopRecord). r.id == l) s.db.loops) q.loop_id ≡ true =
      ground arith in
    let l' = loop_kept new.id s.db.loops q.loop_id held l in
    let p' = project_kept new s.db.projects q.project_id other p in rw (p', l') (rw (p, l) at k)

row_stays :
    (new : ProjectRecord) (s : Repositories) (q : QueueItemRecord)
    → row_ok s.db q ≡ true
    → row_ok (with_project new s).db q ≡ true
unfolding row_ok
row_stays new s q k = ground (arith, project_stays new s.db.projects q.project_id)

-- Writing a project keeps a well-formed queue well-formed, whether or not the store has a project
-- with its id.
pub upsert_project-IsWellFormed :
    (new : ProjectRecord) (s : Repositories) → IsWellFormed s.db → IsWellFormed (upsert new s).db
unfolding upsert
upsert_project-IsWellFormed new s w =
    elim (Bool-cases (any (λ (p : ProjectRecord). p.id == new.id) s.db.projects)) [
      | inl e ↦ rw e (record {
        rows_hold =
            unfold delete_cascade in
            all_kept (row_ok s.db) (row_ok (with_project new (delete_cascade new.id s)).db)
              (goes_with new.id s.db.loops) s.db.queue_items (row_kept new s) w.rows_hold;
        ids_differ =
            unfold delete_cascade in
            ids_ok-keep (λ q. not (goes_with new.id s.db.loops q)) s.db.queue_items w.ids_differ;
        index_holds =
            unfold delete_cascade in
            index_ok-keep (λ q. not (goes_with new.id s.db.loops q)) s.db.queue_items w.index_holds;
      })
      | inr e ↦ rw e (record {
        rows_hold =
            all_imp (row_ok s.db) (row_ok (with_project new s).db) s.db.queue_items
              (row_stays new s) w.rows_hold;
        ids_differ = w.ids_differ;
        index_holds = w.index_holds;
      })
    ]
