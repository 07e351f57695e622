-- ===== src/Storage/Projects/Replaced.antt =====
-- `upsert` of crates/looper-storage/src/repos/projects.rs on a project that the store has.
use looper_rust.Prelude.{
  String, ◌==◌, eq_iff, eq_refl, Bool, true, false, not, ◌&&◌, ◌≡◌, refl, false-ne-true, Option,
  none, some, List, [], ◌∷◌, any, any-true, keep, keep-none, Memᴰ, arith,
}
use looper_rust.Storage.Schema.{LoopRecord, ProjectRecord}
use looper_rust.Storage.Sql.{sql_eq, best}
use looper_rust.Storage.Queue
use looper_rust.Storage.Runs.{RunRecord, Repositories, get_latest_by_loop_id}
use looper_rust.Storage.Projects.{
  is_of_project, is_loop_of, has_lost_loop, goes_with, delete_cascade, upsert,
}

-- no row that the deletion takes is left
none_of {ℓ} :
    {A : Type ℓ} (p k : A → Bool) (xs : List A)
    → ((a : A) → p a ≡ true → k a ≡ true)
    → any p (keep (λ a. not (k a)) xs) ≡ false
none_of p k [] h = refl
none_of p k (x ∷ xs) h = ground (arith, h x, none_of p k xs h)

is_lost :
    (id : String) (loops : List LoopRecord) (l : LoopRecord)
    → Memᴰ l loops
    → l.project_id ≡ id
    → is_loop_of id loops l.id ≡ true
is_lost id loops l m e =
    any-true (λ (x : LoopRecord). is_of_project id x && x.id == l.id) loops l m
      (ground (arith, (eq_iff l.project_id id).1 e, eq_refl l.id))

module _ (new : ProjectRecord) (l : LoopRecord) (s : Repositories)
    (known : any (λ (p : ProjectRecord). p.id == new.id) s.db.projects ≡ true)
    (m : Memᴰ l s.db.loops) (e : l.project_id ≡ new.id) where
  lost : is_loop_of new.id s.db.loops l.id ≡ true
  lost = is_lost new.id s.db.loops l m e

  goes : (o : Option String) → sql_eq o l.id ≡ true → has_lost_loop new.id s.db.loops o ≡ true
  goes none h = absurd (false-ne-true h)
  goes (some k) h = rw ((eq_iff k l.id).0 h) lost

  no_item : Queue.get_latest_by_loop_id (upsert new s).db l.id ≡ none
  unfolding upsert delete_cascade Queue.get_latest_by_loop_id best
  no_item = rw known (
      rw
        (keep-none (λ q. sql_eq q.loop_id l.id) (λ q. sql_eq q.loop_id l.id)
          (keep (λ q. not (goes_with new.id s.db.loops q)) s.db.queue_items) (λ q h. h)
          (none_of (λ q. sql_eq q.loop_id l.id) (goes_with new.id s.db.loops) s.db.queue_items
            (λ q h. ground (arith, goes q.loop_id h))))
        refl)

  no_run : get_latest_by_loop_id l.id (upsert new s) ≡ none
  unfolding upsert delete_cascade get_latest_by_loop_id best
  no_run = rw known (
      rw
        (keep-none (λ (r : RunRecord). r.loop_id == l.id) (λ r. r.loop_id == l.id)
          (keep (λ r. not (is_loop_of new.id s.db.loops r.loop_id)) s.runs) (λ r h. h)
          (none_of (λ (r : RunRecord). r.loop_id == l.id)
            (λ r. is_loop_of new.id s.db.loops r.loop_id) s.runs (λ r h. goes (some r.loop_id) h)))
        refl)

  -- When a project that the store has is written again, the store loses all loops of the project,
  -- and of each of them all queue items and runs.
  pub upsert-loses_work :
      (any (is_of_project new.id) (upsert new s).db.loops ≡ false)
      × ((Queue.get_latest_by_loop_id (upsert new s).db l.id ≡ none)
          × (get_latest_by_loop_id l.id (upsert new s) ≡ none))
  unfolding upsert delete_cascade
  upsert-loses_work = (
    rw known (none_of (is_of_project new.id) (is_of_project new.id) s.db.loops (λ x h. h)),
    (no_item, no_run),
  )
