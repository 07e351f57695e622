-- ===== src/Storage/Ops/Inserted.antt =====
-- The insertions of crates/looper-storage/src/repos/queue.rs, the ids and the unique index.
use looper_rust.Prelude.{
  ◌==◌, eq_iff, ◌≡◌, refl, Bool, true, false, not, ◌||◌, List, [], ◌∷◌, ◌++◌, any, keep, arith,
  any-append, any-keep, all-append, all-keep, keep-none_any,
}
use looper_rust.Storage.Schema.{QueueItemRecord, Db, row_ok, index_ok, ids_ok, index_clash}
use looper_rust.Storage.WellFormed.{IsWellFormed}

ids_ok-append :
    (q : QueueItemRecord) (rows : List QueueItemRecord)
    → ids_ok rows ≡ true
    → any (λ (r : QueueItemRecord). r.id == q.id) rows ≡ false
    → ids_ok (rows ++ q ∷ []) ≡ true
unfolding ids_ok
ids_ok-append q [] h k = refl
ids_ok-append q (x ∷ rows) h k = ground (
  arith,
  any-append (λ (r : QueueItemRecord). r.id == x.id) rows (q ∷ []),
  ids_ok-append q rows,
  eq_iff x.id q.id,
  eq_iff q.id x.id,
)

pub ids_ok-keep :
    (p : QueueItemRecord → Bool) (rows : List QueueItemRecord)
    → ids_ok rows ≡ true
    → ids_ok (keep p rows) ≡ true
unfolding ids_ok
ids_ok-keep p [] h = refl
ids_ok-keep p (x ∷ rows) h =
    ground (arith, any-keep (λ (r : QueueItemRecord). r.id == x.id) p rows, ids_ok-keep p rows)

index_clash_sym : (a b : QueueItemRecord) → index_clash a b ≡ true → index_clash b a ≡ true
unfolding index_clash
index_clash_sym a b h =
    ground (arith, eq_iff a.dedupe_key b.dedupe_key, eq_iff b.dedupe_key a.dedupe_key)

index_ok-append :
    (q : QueueItemRecord) (rows : List QueueItemRecord)
    → index_ok rows ≡ true
    → any (index_clash q) rows ≡ false
    → index_ok (rows ++ q ∷ []) ≡ true
unfolding index_ok
index_ok-append q [] h k = refl
index_ok-append q (x ∷ rows) h k =
    ground
      (arith, any-append (index_clash x) rows (q ∷ []), index_ok-append q rows, index_clash_sym x q)

pub index_ok-keep :
    (p : QueueItemRecord → Bool) (rows : List QueueItemRecord)
    → index_ok rows ≡ true
    → index_ok (keep p rows) ≡ true
unfolding index_ok
index_ok-keep p [] h = refl
index_ok-keep p (x ∷ rows) h = ground (arith, any-keep (index_clash x) p rows, index_ok-keep p rows)

module _ {db : Db} (q : QueueItemRecord) (w : IsWellFormed db) (r : row_ok db q ≡ true) where
  abbrev pub with_row : List QueueItemRecord → Db
  with_row rows = record db { queue_items = rows ++ q ∷ [] }

  abbrev clashes : QueueItemRecord → Bool
  clashes x = x.id == q.id || index_clash q x

  -- a row in place of all that it clashes with
  pub replaced-IsWellFormed :
      IsWellFormed (with_row (keep (λ x. not (x.id == q.id || index_clash q x)) db.queue_items))
  replaced-IsWellFormed =
      let rest = keep (λ x. not (clashes x)) db.queue_items in
      record {
        rows_hold =
            unfold row_ok in
            all-append (row_ok db) rest q
              (all-keep (row_ok db) (λ x. not (clashes x)) db.queue_items w.rows_hold) r;
        ids_differ =
            ids_ok-append q rest (ids_ok-keep (λ x. not (clashes x)) db.queue_items w.ids_differ) (
              keep-none_any (λ (x : QueueItemRecord). x.id == q.id) (λ x. not (clashes x))
                (λ x h. ground arith) db.queue_items);
        index_holds =
            index_ok-append q rest
              (index_ok-keep (λ x. not (clashes x)) db.queue_items w.index_holds)
              (keep-none_any (index_clash q) (λ x. not (clashes x)) (λ x h. ground arith)
                db.queue_items);
      }
