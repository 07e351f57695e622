-- ===== src/Storage/Ops/Created.antt =====
-- `create_or_get_active_by_dedupe` of crates/looper-storage/src/repos/queue.rs, for work of any type.
use looper_rust.Prelude.{
  String, ◌≤◌, ◌==◌, eq_iff, Bool, true, false, not, ◌&&◌, ◌||◌, ◌≡◌, refl, ◌∙◌, none, some, List,
  [], ◌∷◌, ◌++◌, any, any-false, count, Memᴰ, arith, Bool-cases, Option-cases, inl, inr,
  if◌then◌else◌,
}
use looper_rust.Storage.Schema.{QueueItemRecord, Db, ok, is_active, is_indexed, row_ok, index_clash}
use looper_rust.Storage.Queue.{find_active_by_dedupe}
use looper_rust.Storage.Queue.Rows.{find_by-some, count-append}
use looper_rust.Storage.Insert.{insert_row, create_or_get_active_by_dedupe}
use looper_rust.Storage.Ops.Deduped.{create-there, create-absent, inserts, find_by-none}

-- an item that waits or runs under a key
abbrev pub is_live : String → QueueItemRecord → Bool
is_live key q = q.dedupe_key == key && (q.status == "queued" || q.status == "running")

-- under every key at most one item waits or runs
abbrev pub HasOneLive : List QueueItemRecord → Type 0
HasOneLive rows = (key : String) → count (is_live key) rows ≤ 1

abbrev pub is_there : QueueItemRecord → List QueueItemRecord → Bool
is_there q rows = any (is_live q.dedupe_key) rows

-- the rows after a call with `q`
abbrev pub rows_after : QueueItemRecord → List QueueItemRecord → List QueueItemRecord
rows_after q rows = if is_there q rows then rows else rows ++ q ∷ []

count_none :
    (p : QueueItemRecord → Bool) (rows : List QueueItemRecord)
    → any p rows ≡ false
    → count p rows ≡ 0
count_none p [] h = refl
count_none p (x ∷ rows) h = ground (arith, count_none p rows)

last-Memᴰ : (q : QueueItemRecord) (rows : List QueueItemRecord) → Memᴰ q (rows ++ q ∷ [])
last-Memᴰ q [] = Memᴰ.head refl
last-Memᴰ q (x ∷ rows) = Memᴰ.tail (last-Memᴰ q rows)

-- a live row that the index keeps apart from a new one is live under its key
clash-is_live : (q x : QueueItemRecord) → is_live q.dedupe_key x ≡ false → index_clash q x ≡ false
unfolding index_clash is_indexed is_active
clash-is_live q x h = elim (Bool-cases (x.dedupe_key == q.dedupe_key)) [
  | inl e ↦ ground arith
  | inr e ↦
      (let n : (q.dedupe_key == x.dedupe_key) ≡ false =
          ground (arith, eq_iff q.dedupe_key x.dedupe_key, eq_iff x.dedupe_key q.dedupe_key) in
        rw n (ground arith))
]

no_clash :
    (q : QueueItemRecord) (rows : List QueueItemRecord)
    → is_there q rows ≡ false
    → any (index_clash q) rows ≡ false
no_clash q [] h = refl
no_clash q (x ∷ rows) h = elim (Bool-cases (is_live q.dedupe_key x)) [
  | inl e ↦ (let k : true ≡ false = rw e at h in absurd (ground arith))
  | inr e ↦ rw (clash-is_live q x e) (no_clash q rows (rw e at h))
]

HasOneLive-append :
    (q : QueueItemRecord) (rows : List QueueItemRecord)
    → is_there q rows ≡ false
    → HasOneLive rows
    → HasOneLive (rows ++ q ∷ [])
HasOneLive-append q rows h one key = elim (Bool-cases (q.dedupe_key == key)) [
  | inl e ↦
      (let k = (eq_iff q.dedupe_key key).0 e in
        let z = count_none (is_live q.dedupe_key) rows h in
        let z' : count (is_live key) rows ≡ 0 = rw k at z in
        rw (count-append (is_live key) rows q, z') (ground arith))
  | inr e ↦
      (let n : is_live key q ≡ false = rw e refl in
        rw (count-append (is_live key) rows q, n) (ground (arith, one key)))
]

present_before :
    (q x : QueueItemRecord) (db : Db)
    → find_active_by_dedupe db q.dedupe_key ≡ some x
    → Memᴰ x db.queue_items × (is_live q.dedupe_key x ≡ true) × (is_there q db.queue_items ≡ true)
unfolding find_active_by_dedupe is_active
present_before q x db h =
    let (m, k) = find_by-some (is_live q.dedupe_key) db.queue_items x h in
    (
      m,
      k,
      elim (Bool-cases (is_there q db.queue_items)) [
        | inl e ↦ e
        | inr e ↦ absurd (ground (arith, any-false (is_live q.dedupe_key) db.queue_items x e m))
      ],
    )

absent_before :
    (q : QueueItemRecord) (db : Db)
    → find_active_by_dedupe db q.dedupe_key ≡ none
    → is_there q db.queue_items ≡ false
unfolding find_active_by_dedupe is_active
absent_before q db h = find_by-none (is_live q.dedupe_key) db.queue_items h

inserted :
    (q : QueueItemRecord) (db : Db)
    → row_ok db q ≡ true
    → any (λ (r : QueueItemRecord). r.id == q.id) db.queue_items ≡ false
    → any (index_clash q) db.queue_items ≡ false
    → insert_row q db ≡ ok (record db { queue_items = db.queue_items ++ q ∷ [] })
unfolding insert_row
inserted q db r i n = rw (r, i, n) refl

-- Given an item of any type of work that waits or runs, that meets the CHECKs and foreign keys and
-- whose id is new, in a table where at most one item waits or runs under each key: the call
-- succeeds with an item of the table that waits or runs under the key, and says whether it is new;
-- the item is appended exactly if none waits or runs under its key, nothing else changes, and still
-- at most one item waits or runs under each key.
pub create-HasOneLive :
    (q : QueueItemRecord) (db : Db)
    → row_ok db q ≡ true
    → any (λ (r : QueueItemRecord). r.id == q.id) db.queue_items ≡ false
    → is_live q.dedupe_key q ≡ true
    → HasOneLive db.queue_items
    → ((item : QueueItemRecord) × ((create_or_get_active_by_dedupe q db
            ≡ ok (
              (item, not (is_there q db.queue_items)),
              record db { queue_items = rows_after q db.queue_items },
            ))
          × (is_live q.dedupe_key item ≡ true)
          × Memᴰ item (rows_after q db.queue_items)))
      × HasOneLive (rows_after q db.queue_items)
create-HasOneLive q db r i l one = elim (Option-cases (find_active_by_dedupe db q.dedupe_key)) [
  | inr (x, e) ↦
      (let (m, k, t) = present_before q x db e in rw t ((x, (create-there q db x e, k, m)), one))
  | inl e ↦
      (let n = absent_before q db e in
        let k = inserted q db r i (no_clash q db.queue_items n) in
        rw n (
          (q, (create-absent q db e ∙ rw k (inserts q db i), l, last-Memᴰ q db.queue_items)),
          HasOneLive-append q db.queue_items n one,
        ))
]
