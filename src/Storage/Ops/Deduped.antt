-- ===== src/Storage/Ops/Deduped.antt =====
-- `create_or_get_active_by_dedupe` of crates/looper-storage/src/repos/queue.rs, called again.
use looper_rust.Prelude.{
  ◌==◌, eq_refl, Bool, true, false, ◌&&◌, ◌≡◌, refl, sym, ◌∙◌, ap, inl, inr, none, some, List, [],
  ◌∷◌, ◌++◌, any, arith, Bool-cases, Option-cases,
}
use looper_rust.Storage.Schema.{
  QueueItemRecord, Db, Result, StorageError, ok, err, is_active, unique_violation,
  constraint_violation, not_found, row_ok, index_clash,
}
use looper_rust.Storage.Queue.{find_by, get_by_id, find_active_by_dedupe}
use looper_rust.Storage.Queue.Rows.{find_by-last}
use looper_rust.Storage.Insert.{insert_row, after_insert, create_or_get_active_by_dedupe}

-- the INSERT either appends the row, or fails
pub data Insertion (q : QueueItemRecord) (db : Db) : Type 0 where
  appended :
      any (λ (r : QueueItemRecord). r.id == q.id) db.queue_items ≡ false
      → insert_row q db ≡ ok (record db { queue_items = db.queue_items ++ q ∷ [] })
      → Insertion q db
  failed : (e : StorageError) → insert_row q db ≡ err e → Insertion q db

pub insertion : (q : QueueItemRecord) (db : Db) → Insertion q db
unfolding insert_row
insertion q db = elim (Bool-cases (row_ok db q)) [
  | inr e ↦ failed constraint_violation (rw e refl)
  | inl e ↦ elim (Bool-cases (any (λ (r : QueueItemRecord). r.id == q.id) db.queue_items)) [
    | inl f ↦ failed constraint_violation (rw (e, f) refl)
    | inr f ↦ elim (Bool-cases (any (index_clash q) db.queue_items)) [
      | inl g ↦ failed unique_violation (rw (e, f, g) refl)
      | inr g ↦ appended f (rw (e, f, g) refl)
    ]
  ]
]

-- What a success means: the active row of the key that there is, and nothing changed; or the new
-- row, appended.
pub data Deduped (q : QueueItemRecord) (db : Db) (item : QueueItemRecord) (db' : Db) : Type 0 where
  there : find_active_by_dedupe db q.dedupe_key ≡ some item → db ≡ db' → Deduped q db item db'
  inserted :
      find_active_by_dedupe db q.dedupe_key ≡ none
      → q ≡ item
      → record db { queue_items = db.queue_items ++ q ∷ [] } ≡ db'
      → Deduped q db item db'

pub find_by-none :
    (p : QueueItemRecord → Bool) (rows : List QueueItemRecord)
    → find_by p rows ≡ none
    → any p rows ≡ false
unfolding find_by
find_by-none p [] h = refl
find_by-none p (x ∷ rows) h = ground (arith, find_by-none p rows)

abbrev Answer : Type 0
Answer = Result ((QueueItemRecord × Bool) × Db)

same_item :
    (a a' : QueueItemRecord) (b b' : Bool) (d d' : Db)
    → ◌≡◌ {A = Answer} (ok ((a, b), d)) (ok ((a', b'), d'))
    → a ≡ a'
same_item a a' b b' d d' h = cc

same_db :
    (a a' : QueueItemRecord) (b b' : Bool) (d d' : Db)
    → ◌≡◌ {A = Answer} (ok ((a, b), d)) (ok ((a', b'), d'))
    → d ≡ d'
same_db a a' b b' d d' h = cc

refuses :
    (e : StorageError) (q : QueueItemRecord) (db : Db) (a : (QueueItemRecord × Bool) × Db)
    → find_active_by_dedupe db q.dedupe_key ≡ none
    → ¬ (after_insert (err e) q db ≡ ok a)
refuses (not_found k) q db a f h = cc
refuses unique_violation q db a f h =
    let k : ◌≡◌ {A = Answer} (err (not_found q.dedupe_key)) (ok a) = rw f at h in cc
refuses constraint_violation q db a f h = cc

pub inserts :
    (q : QueueItemRecord) (db : Db)
    → any (λ (r : QueueItemRecord). r.id == q.id) db.queue_items ≡ false
    → after_insert (ok (record db { queue_items = db.queue_items ++ q ∷ [] })) q db
      ≡ ok ((q, true), record db { queue_items = db.queue_items ++ q ∷ [] })
unfolding get_by_id
inserts q db fresh =
    rw (find_by-last (λ (r : QueueItemRecord). r.id == q.id) db.queue_items q fresh (eq_refl q.id))
      refl

pub create-there :
    (q : QueueItemRecord) (db : Db) (x : QueueItemRecord)
    → find_active_by_dedupe db q.dedupe_key ≡ some x
    → create_or_get_active_by_dedupe q db ≡ ok ((x, false), db)
unfolding create_or_get_active_by_dedupe
create-there q db x e = rw (e, create_or_get_active_by_dedupe) refl

pub create-absent :
    (q : QueueItemRecord) (db : Db)
    → find_active_by_dedupe db q.dedupe_key ≡ none
    → create_or_get_active_by_dedupe q db ≡ after_insert (insert_row q db) q db
unfolding create_or_get_active_by_dedupe insert_row
create-absent q db e = rw (e, create_or_get_active_by_dedupe) refl

module _ (q : QueueItemRecord) (db : Db) (item : QueueItemRecord) (db' : Db) where
  pub create-Deduped :
      (is_new : Bool)
      → create_or_get_active_by_dedupe q db ≡ ok ((item, is_new), db')
      → Deduped q db item db'
  create-Deduped is_new h = elim (Option-cases (find_active_by_dedupe db q.dedupe_key)) [
    | inr (x, e) ↦
        (let k : ◌≡◌ {A = Answer} (ok ((x, false), db)) (ok ((item, is_new), db')) =
            sym (create-there q db x e) ∙ h in
          there (e ∙ ap some (same_item x item false is_new db db' k))
            (same_db x item false is_new db db' k))
    | inl e ↦ elim (insertion q db) [
      | failed x f ↦
          (let k : ◌≡◌ {A = Answer} (after_insert (err x) q db) (ok ((item, is_new), db')) =
              (rw f at (sym (create-absent q db e) ∙ h)) in
            absurd (refuses x q db ((item, is_new), db') e k))
      | appended fresh f ↦
          (let d = record db { queue_items = db.queue_items ++ q ∷ [] } in
            let k : ◌≡◌ {A = Answer} (ok ((q, true), d)) (ok ((item, is_new), db')) =
              sym (inserts q db fresh) ∙ (rw f at (sym (create-absent q db e) ∙ h)) in
            inserted e (same_item q item true is_new d db' k) (same_db q item true is_new d db' k))
    ]
  ]

  -- the next search for the key finds the item
  pub Deduped-found :
      Deduped q db item db'
      → is_active q ≡ true
      → find_active_by_dedupe db' q.dedupe_key ≡ some item
  unfolding find_active_by_dedupe
  Deduped-found (there e f) a = rw (sym f) e
  Deduped-found (inserted e f g) a =
      let t = λ (r : QueueItemRecord). r.dedupe_key == q.dedupe_key && is_active r in
      rw (sym g, sym f)
        (find_by-last t db.queue_items q (find_by-none t db.queue_items e)
          (rw (eq_refl q.dedupe_key) a))

  pub Deduped-loops : Deduped q db item db' → db'.loops ≡ db.loops
  Deduped-loops (there e f) = rw (sym f) refl
  Deduped-loops (inserted e f g) = rw (sym g) refl

  pub Deduped-projects : Deduped q db item db' → db'.projects ≡ db.projects
  Deduped-projects (there e f) = rw (sym f) refl
  Deduped-projects (inserted e f g) = rw (sym g) refl
