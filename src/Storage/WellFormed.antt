-- ===== src/Storage/WellFormed.antt =====
-- What the schema promises of `queue_items` between statements, and the updates that cannot fail.
use looper_rust.Prelude.{
  ◌≡◌, refl, Bool, true, List, [], ◌∷◌, all, keep, map, any-map-false, all-map-true, arith,
  Bool-cases, inl, inr, ◌==◌, if◌then◌else◌,
}
use looper_rust.Storage.Schema.{
  QueueItemRecord, Db, ok, row_ok, index_ok, ids_ok, index_clash, is_indexed,
}
use looper_rust.Storage.Sql.{update_where}

-- CHECKs and foreign keys hold, ids are unique, and a dedupe key has one active row.
pub record IsWellFormed (db : Db) : Type 0 where
  pub rows_hold : all (row_ok db) db.queue_items ≡ true
  pub ids_differ : ids_ok db.queue_items ≡ true
  pub index_holds : index_ok db.queue_items ≡ true

-- an update that keeps the ids keeps them apart
pub ids_ok-map :
    (f : QueueItemRecord → QueueItemRecord)
    → ((q : QueueItemRecord) → (f q).id ≡ q.id)
    → (rows : List QueueItemRecord) → ids_ok rows ≡ true
    → ids_ok (map f rows) ≡ true
unfolding ids_ok
ids_ok-map f same_id [] h = refl
ids_ok-map f same_id (q ∷ rows) h = ground (
  arith,
  ids_ok-map f same_id rows,
  any-map-false (λ (r : QueueItemRecord). r.id == q.id) (λ r. r.id == (f q).id) f (λ r. same r q)
      rows,
)
  where
    same : (r t : QueueItemRecord) → ((f r).id == (f t).id) ≡ true → (r.id == t.id) ≡ true
    same r t h = ground (arith, same_id r, same_id t)

-- an update of one row that the schema cannot refuse
pub record IsSafe (db : Db) (f : QueueItemRecord → QueueItemRecord) : Type 0 where
  pub same_id : (q : QueueItemRecord) → (f q).id ≡ q.id
  pub same_key : (q : QueueItemRecord) → (f q).dedupe_key ≡ q.dedupe_key
  pub still_indexed : (q : QueueItemRecord) → is_indexed (f q) ≡ true → is_indexed q ≡ true
  pub row : (q : QueueItemRecord) → row_ok db q ≡ true → row_ok db (f q) ≡ true

module _ {db : Db} (f : QueueItemRecord → QueueItemRecord) (s : IsSafe db f) where
  clash_back : (a b : QueueItemRecord) → index_clash (f a) (f b) ≡ true → index_clash a b ≡ true
  unfolding index_clash
  clash_back a b h =
      ground (arith, s.still_indexed a, s.still_indexed b, s.same_key a, s.same_key b)

  index_ok-map : (rows : List QueueItemRecord) → index_ok rows ≡ true → index_ok (map f rows) ≡ true
  unfolding index_ok
  index_ok-map [] h = refl
  index_ok-map (q ∷ rows) h = ground (
    arith,
    any-map-false (index_clash q) (index_clash (f q)) f (clash_back q) rows,
    index_ok-map rows,
  )

-- the same for an update of the rows that pass a test
pub record IsSafeOn (db : Db) (p : QueueItemRecord → Bool) (f : QueueItemRecord → QueueItemRecord)
    : Type 0 where
  pub same_id : (q : QueueItemRecord) → (f q).id ≡ q.id
  pub same_key : (q : QueueItemRecord) → (f q).dedupe_key ≡ q.dedupe_key
  pub still_indexed :
      (q : QueueItemRecord) → p q ≡ true → is_indexed (f q) ≡ true → is_indexed q ≡ true
  pub row : (q : QueueItemRecord) → row_ok db q ≡ true → row_ok db (f q) ≡ true

module _ (db : Db) (p : QueueItemRecord → Bool) (f : QueueItemRecord → QueueItemRecord) where
  abbrev pub touched : QueueItemRecord → QueueItemRecord
  touched q = if p q then f q else q

  abbrev pub after : Db
  after = record db { queue_items = map touched db.queue_items }

  IsSafe-touched : IsSafeOn db p f → IsSafe db touched
  IsSafe-touched s = record {
    same_id = λ q. ground (arith, s.same_id q);
    same_key = λ q. ground (arith, s.same_key q);
    still_indexed = λ q h. elim (Bool-cases (p q)) [
      | inl e ↦ s.still_indexed q e (rw e at h)
      | inr e ↦ rw e at h
    ];
    row = λ q h. elim (Bool-cases (p q)) [ inl e ↦ rw e (s.row q h) | inr e ↦ rw e h ];
  }

  -- a safe update succeeds, and leaves the table well-formed
  pub update_where-ok :
      IsSafeOn db p f
      → IsWellFormed db
      → update_where p f db ≡ ok (map f (keep p db.queue_items), after)
  unfolding update_where
  update_where-ok s w =
      let t = IsSafe-touched s in
      rw (
        all-map-true (row_ok db) (row_ok db) touched t.row db.queue_items w.rows_hold,
        index_ok-map touched t db.queue_items w.index_holds,
      )

  pub after-IsWellFormed : IsSafeOn db p f → IsWellFormed db → IsWellFormed after
  after-IsWellFormed s w =
      let t = IsSafe-touched s in
      record {
        rows_hold =
            all-map-true (row_ok db) (row_ok after) touched (λ q h. unfold row_ok in t.row q h)
              db.queue_items w.rows_hold;
        ids_differ = ids_ok-map touched t.same_id db.queue_items w.ids_differ;
        index_holds = index_ok-map touched t db.queue_items w.index_holds;
      }
