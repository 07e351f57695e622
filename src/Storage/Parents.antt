-- ===== src/Storage/Parents.antt =====
-- The rows of `loops` and `projects` that the keys of `queue_items` refer to.
use looper_rust.Prelude.{
  String, ◌==◌, Bool, true, ◌≡◌, refl, sym, subst, Option, none, some, List, [], ◌∷◌, any, all,
  all_imp, map,
}
use looper_rust.Storage.Schema.{
  QueueItemRecord, LoopRecord, ProjectRecord, Db, row_ok, ids_ok, index_ok, null_or,
}
use looper_rust.Storage.WellFormed.{IsWellFormed}

-- the database has the same queue, and the ids of the same loops and projects
pub record HasSameKeys (db db' : Db) : Type 0 where
  pub items : db'.queue_items ≡ db.queue_items
  pub loop_ids :
      (k : String)
      → any (λ (l : LoopRecord). l.id == k) db'.loops ≡ any (λ (l : LoopRecord). l.id == k) db.loops
  pub project_ids :
      (k : String)
      → any (λ (p : ProjectRecord). p.id == k) db'.projects
        ≡ any (λ (p : ProjectRecord). p.id == k) db.projects

null_or-same :
    (p p' : String → Bool)
    → ((k : String) → p' k ≡ p k)
    → (o : Option String) → null_or p' o ≡ null_or p o
null_or-same p p' h none = refl
null_or-same p p' h (some k) = h k

module _ (db db' : Db) (s : HasSameKeys db db') where
  row_ok-same : (q : QueueItemRecord) → row_ok db q ≡ true → row_ok db' q ≡ true
  unfolding row_ok
  row_ok-same q h =
      let l =
        null_or-same (λ k. any (λ (l : LoopRecord). l.id == k) db.loops)
          (λ k. any (λ (l : LoopRecord). l.id == k) db'.loops) s.loop_ids q.loop_id in
      let p =
        null_or-same (λ k. any (λ (p : ProjectRecord). p.id == k) db.projects)
          (λ k. any (λ (p : ProjectRecord). p.id == k) db'.projects) s.project_ids q.project_id in
      rw (l, p) h

  pub HasSameKeys-IsWellFormed : IsWellFormed db → IsWellFormed db'
  HasSameKeys-IsWellFormed w = record {
    rows_hold =
        subst (λ rows. all (row_ok db') rows ≡ true) (sym s.items)
          (all_imp (row_ok db) (row_ok db') db.queue_items row_ok-same w.rows_hold);
    ids_differ = subst (λ rows. ids_ok rows ≡ true) (sym s.items) w.ids_differ;
    index_holds = subst (λ rows. index_ok rows ≡ true) (sym s.items) w.index_holds;
  }

-- an update of the rows that keeps a test of them
pub any-map_same {ℓ} :
    {A : Type ℓ} (p : A → Bool) (f : A → A)
    → ((a : A) → p (f a) ≡ p a)
    → (rows : List A) → any p (map f rows) ≡ any p rows
any-map_same p f h [] = refl
any-map_same p f h (a ∷ rows) = rw (h a, any-map_same p f h rows) refl
