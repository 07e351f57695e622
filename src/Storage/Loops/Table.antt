-- ===== src/Storage/Loops/Table.antt =====
-- The table of crates/looper-storage/src/repos/loops.rs as a map from ids to loops.
use looper_rust.Prelude.{
  String, ◌==◌, eq_iff, true, false, ◌≡◌, refl, sym, subst, Option, none, some, List, [], ◌∷◌, ◌++◌,
  any, all, all_imp, any-append, map, arith, Bool-cases, inl, inr, if◌then◌else◌,
}
use looper_rust.Storage.Schema.{
  QueueItemRecord, LoopRecord, Db, ok, row_ok, ids_ok, index_ok, null_or,
}
use looper_rust.Storage.Loops.{has_id, rewritten, written, upsert, find_loop, get_by_id}
use looper_rust.Storage.WellFormed.{IsWellFormed}

-- the row of an id after the write of a loop
abbrev pub stored : LoopRecord → Option LoopRecord → LoopRecord
stored l none = l
stored l (some x) = record l { created_at = x.created_at }

pub find_loop-id :
    (id : String) (loops : List LoopRecord) (l : LoopRecord)
    → find_loop (has_id id) loops ≡ some l
    → l.id ≡ id
unfolding find_loop
find_loop-id id [] l h = absurd (ground arith)
find_loop-id id (x ∷ loops) l h = ground (arith, find_loop-id id loops l, eq_iff x.id id)

abbrev rewritten_found : LoopRecord → Option LoopRecord → Option LoopRecord
rewritten_found l none = none
rewritten_found l (some x) = some (rewritten l x)

find-rewritten :
    (l : LoopRecord) (k : String) (loops : List LoopRecord)
    → find_loop (has_id k) (map (rewritten l) loops)
      ≡ rewritten_found l (find_loop (has_id k) loops)
unfolding find_loop
find-rewritten l k [] = refl
find-rewritten l k (x ∷ loops) =
    ground (arith, find-rewritten l k loops, eq_iff x.id k, eq_iff x.id l.id, eq_iff l.id k)

find-last :
    (l : LoopRecord) (k : String) (loops : List LoopRecord)
    → any (has_id l.id) loops ≡ false
    → find_loop (has_id k) (loops ++ l ∷ [])
      ≡ (if k == l.id then some l else find_loop (has_id k) loops)
unfolding find_loop
find-last l k [] h = ground (arith, eq_iff l.id k, eq_iff k l.id)
find-last l k (x ∷ loops) h =
    ground (arith, find-last l k loops, eq_iff x.id k, eq_iff x.id l.id, eq_iff k l.id)

find-none :
    (k : String) (loops : List LoopRecord)
    → any (has_id k) loops ≡ false
    → find_loop (has_id k) loops ≡ none
unfolding find_loop
find-none k [] h = refl
find-none k (x ∷ loops) h = ground (arith, find-none k loops)

find-some :
    (k : String) (loops : List LoopRecord)
    → any (has_id k) loops ≡ true
    → (x : LoopRecord) × (find_loop (has_id k) loops ≡ some x)
unfolding find_loop
find-some k [] h = absurd (ground arith)
find-some k (x ∷ loops) h = elim (Bool-cases (has_id k x)) [
  | inl e ↦ (x, rw e)
  | inr e ↦ (let (y, f) = find-some k loops (ground arith) in (y, rw e f))
]

-- a row that another id finds is not rewritten
unrelated :
    (l : LoopRecord) (k : String)
    → (k == l.id) ≡ false
    → (o : Option LoopRecord) → ((y : LoopRecord) → o ≡ some y → y.id ≡ k)
    → rewritten_found l o ≡ o
unrelated l k h none f = refl
unrelated l k h (some y) f =
    let e : y.id ≡ k = f y refl in let other : (y.id == l.id) ≡ false = rw e h in rw other

find-written :
    (l : LoopRecord) (k : String) (loops : List LoopRecord)
    → find_loop (has_id k) (written l loops) ≡ (
        if k == l.id
        then some (stored l (find_loop (has_id l.id) loops))
        else find_loop (has_id k) loops)
find-written l k loops = elim (Bool-cases (any (has_id l.id) loops)) [
  | inr e ↦ rw (e, find-none l.id loops e) (find-last l k loops e)
  | inl e ↦
      (let (x, f) = find-some l.id loops e in
        rw (e, find-rewritten l k loops)
          (elim (Bool-cases (k == l.id)) [
            | inl same ↦
                rw (same, (eq_iff k l.id).0 same, f)
                  (ground (arith, (eq_iff x.id l.id).1 (find_loop-id l.id loops x f)))
            | inr other ↦
                rw other
                  (unrelated l k other (find_loop (has_id k) loops) (λ y. find_loop-id k loops y))
          ]))
]

module _ (l : LoopRecord) (db db' : Db) (h : upsert l db ≡ ok db') where
  pub upsert-loops : db'.loops ≡ written l db.loops
  unfolding upsert
  upsert-loops = ground arith

  pub upsert-items : db'.queue_items ≡ db.queue_items
  unfolding upsert
  upsert-items = ground arith

  pub upsert-projects : db'.projects ≡ db.projects
  unfolding upsert
  upsert-projects = ground arith

  pub upsert-seq : db'.loop_seq ≡ db.loop_seq
  unfolding upsert
  upsert-seq = ground arith

  -- a write changes the row of its id alone, and keeps the time at which that was created
  pub get_by_id-upsert :
      (k : String)
      → get_by_id k db'
        ≡ (if k == l.id then some (stored l (get_by_id l.id db)) else get_by_id k db)
  unfolding get_by_id
  get_by_id-upsert k = rw upsert-loops (find-written l k db.loops)

has-rewritten :
    (l : LoopRecord) (k : String) (loops : List LoopRecord)
    → any (has_id k) loops ≡ true
    → any (has_id k) (map (rewritten l) loops) ≡ true
has-rewritten l k [] h = h
has-rewritten l k (x ∷ loops) h =
    ground (arith, has-rewritten l k loops, eq_iff x.id k, eq_iff x.id l.id, eq_iff l.id k)

has-written :
    (l : LoopRecord) (k : String) (loops : List LoopRecord)
    → any (has_id k) loops ≡ true
    → any (has_id k) (written l loops) ≡ true
has-written l k loops h = elim (Bool-cases (any (has_id l.id) loops)) [
  | inl e ↦ rw e (has-rewritten l k loops h)
  | inr e ↦ rw e (ground (arith, any-append (has_id k) loops (l ∷ [])))
]

loop_stays :
    (l : LoopRecord) (loops : List LoopRecord) (o : Option String)
    → null_or (λ k. any (has_id k) loops) o ≡ true
    → null_or (λ k. any (has_id k) (written l loops)) o ≡ true
loop_stays l loops none h = refl
loop_stays l loops (some k) h = has-written l k loops h

row_stays :
    (l : LoopRecord) (db db' : Db) (q : QueueItemRecord)
    → upsert l db ≡ ok db'
    → row_ok db q ≡ true
    → row_ok db' q ≡ true
unfolding row_ok
row_stays l db db' q h k =
    let found : null_or (λ k. any (has_id k) db.loops) q.loop_id ≡ true = ground arith in
    rw (upsert-loops l db db' h, upsert-projects l db db' h, loop_stays l db.loops q.loop_id found)
      (rw found at k)

pub upsert_loop-IsWellFormed :
    (l : LoopRecord) (db db' : Db) → upsert l db ≡ ok db' → IsWellFormed db → IsWellFormed db'
upsert_loop-IsWellFormed l db db' h w =
    let items = sym (upsert-items l db db' h) in
    record {
      rows_hold =
          subst (λ rows. all (row_ok db') rows ≡ true) items
            (all_imp (row_ok db) (row_ok db') db.queue_items (λ q. row_stays l db db' q h)
              w.rows_hold);
      ids_differ = subst (λ rows. ids_ok rows ≡ true) items w.ids_differ;
      index_holds = subst (λ rows. index_ok rows ≡ true) items w.index_holds;
    }
