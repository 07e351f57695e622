-- ===== src/Storage/Queue/Claim.antt =====
-- The claims of crates/looper-storage/src/repos/queue.rs: which item is claimed, and what changes.
use looper_rust.Prelude.{
  String, ◌≡◌, refl, Bool, true, false, ◌&&◌, none, some, List, [], ◌∷◌, Memᴰ, ◌==◌, eq_iff, arith,
  Option-cases, inl, inr, mem-keep, keep, keep-none, any, any-false, and-true, Memᴰ-nil, eq_refl,
}
use looper_rust.Storage.Schema.{
  QueueItemRecord, Timestamp, Db, ok, is_active, is_indexed, row_ok, ids_ok,
}
use looper_rust.Storage.Sql.{best}
use looper_rust.Storage.Sql.Order.{IsFirst, best-IsFirst, best-none}
use looper_rust.Storage.WellFormed.{IsWellFormed, IsSafeOn, after, update_where-ok}
use looper_rust.Storage.Queue.{
  scheduled_queue_conditions, before, candidates, claimed, claim_next_impl,
}
use looper_rust.Storage.Queue.Order.{before-IsWeakOrder}

abbrev pub picks : QueueItemRecord → QueueItemRecord → Bool
picks c q = q.id == c.id && q.status == "queued"

claimed-row :
    (db : Db) (now : Timestamp) (by : String) (q : QueueItemRecord)
    → row_ok db q ≡ true
    → row_ok db (claimed now by q) ≡ true
unfolding row_ok
claimed-row db now by q h = ground arith

claimed-indexed :
    (now : Timestamp) (by : String) (c q : QueueItemRecord)
    → picks c q ≡ true
    → is_indexed (claimed now by q) ≡ true
    → is_indexed q ≡ true
unfolding is_indexed is_active
claimed-indexed now by c q h k = ground (arith, eq_iff q.status "queued")

pub claimed-IsSafeOn :
    (db : Db) (now : Timestamp) (by : String) (c : QueueItemRecord)
    → IsSafeOn db (picks c) (claimed now by)
claimed-IsSafeOn db now by c = record {
  same_id = λ q. refl;
  same_key = λ q. refl;
  still_indexed = claimed-indexed now by c;
  row = claimed-row db now by;
}

id-eq : (a b : QueueItemRecord) → (a.id == b.id) ≡ true → (b.id == a.id) ≡ true
id-eq a b h = ground (arith, eq_iff a.id b.id, eq_iff b.id a.id)

-- the primary key: the WHERE clause of the claim names one row
pub keep-picks :
    (c : QueueItemRecord) (rows : List QueueItemRecord)
    → ids_ok rows ≡ true
    → Memᴰ c rows
    → (c.status == "queued") ≡ true
    → keep (picks c) rows ≡ c ∷ []
unfolding ids_ok
keep-picks c [] u m s = absurd (Memᴰ-nil c m)
keep-picks c (q ∷ rows) u (Memᴰ.head e) s =
    let here : picks c q ≡ true = rw (← e) (rw (eq_refl c.id, s)) in
    let others : any (λ (r : QueueItemRecord). r.id == q.id) rows ≡ false = ground arith in
    let gone : keep (picks c) rows ≡ [] =
      keep-none (λ (r : QueueItemRecord). r.id == q.id) (picks c) rows
        (λ r h. rw (← e) ((and-true _ _ h).0)) others in
    rw (here, gone, e)
keep-picks c (q ∷ rows) u (Memᴰ.tail m) s =
    let others : any (λ (r : QueueItemRecord). r.id == q.id) rows ≡ false = ground arith in
    let other : (c.id == q.id) ≡ false = any-false (λ r. r.id == q.id) rows c others m in
    let past : picks c q ≡ false = ground (arith, id-eq q c) in
    rw past (keep-picks c rows (ground arith) m s)

-- what a claim does: nothing when there is no candidate, and otherwise it claims a first one
pub data Claim (extra : QueueItemRecord → Bool) (now : Timestamp) (by : String) (db : Db)
    : Type 0 where
  nothing :
      candidates extra now db ≡ []
      → claim_next_impl extra now by db ≡ ok (none, db)
      → Claim extra now by db
  one :
      (c : QueueItemRecord)
      → IsFirst before c (candidates extra now db)
      → claim_next_impl extra now by db
        ≡ ok (some (claimed now by c), after db (picks c) (claimed now by))
      → Claim extra now by db

module _ (extra : QueueItemRecord → Bool) (now : Timestamp) (by : String) (db : Db) where
  pub scheduled-queued :
      (c : QueueItemRecord)
      → (scheduled_queue_conditions db now c && extra c) ≡ true
      → (c.status == "queued") ≡ true
  unfolding scheduled_queue_conditions
  scheduled-queued c h = (and-true _ _ ((and-true _ _ h).0)).0

  pub claim-one :
      IsWellFormed db
      → (c : QueueItemRecord) → best before (candidates extra now db) ≡ some c
      → claim_next_impl extra now by db
        ≡ ok (some (claimed now by c), after db (picks c) (claimed now by))
  unfolding claim_next_impl
  claim-one w c e =
      let first = best-IsFirst before before-IsWeakOrder (candidates extra now db) c e in
      let (m, h) =
        mem-keep (λ q. scheduled_queue_conditions db now q && extra q) db.queue_items c first.0 in
      let queued = scheduled-queued c h in
      let single = keep-picks c db.queue_items w.ids_differ m queued in
      rw (e, claim_next_impl)
        (rw (update_where-ok db (picks c) (claimed now by) (claimed-IsSafeOn db now by c) w)
          (rw single))

  pub Claim-cases : IsWellFormed db → Claim extra now by db
  unfolding claim_next_impl
  Claim-cases w = elim (Option-cases (best before (candidates extra now db))) [
    | inl e ↦ nothing (best-none before _ e) (rw (e, claim_next_impl))
    | inr (c, e) ↦
        one c (best-IsFirst before before-IsWeakOrder (candidates extra now db) c e)
          (claim-one w c e)
  ]
