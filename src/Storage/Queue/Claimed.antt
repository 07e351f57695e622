-- ===== src/Storage/Queue/Claimed.antt =====
-- What a caller of the claims of crates/looper-storage/src/repos/queue.rs may rely on.
use looper_rust.Prelude.{
  ◌+◌, String, ◌≡◌, refl, sym, Bool, true, false, ◌&&◌, Option, none, some, Memᴰ, ◌==◌, eq_other,
  Bool-cases, inl, inr, mem-keep, keep-mem, and-true, Memᴰ-nil, All-mem, count-map_add, subst,
}
use looper_rust.Storage.Schema.{QueueItemRecord, Timestamp, Db, ok}
use looper_rust.Storage.Sql.Order.{IsFirst}
use looper_rust.Storage.WellFormed.{IsWellFormed, after, after-IsWellFormed}
use looper_rust.Storage.Queue.{
  scheduled_queue_conditions, before, candidates, claimed, claim_next_impl, count_by_status,
}
use looper_rust.Storage.Queue.Claim.{
  Claim, nothing, one, Claim-cases, picks, claimed-IsSafeOn, keep-picks, scheduled-queued,
}

-- the item `q` that a claim returned, and the database it left
pub record WasClaimed (extra : QueueItemRecord → Bool) (now : Timestamp) (by : String) (db : Db)
    (q : QueueItemRecord) (db' : Db) : Type 0 where
  pub row : QueueItemRecord
  pub in_table : Memᴰ row db.queue_items
  pub scheduled : scheduled_queue_conditions db now row ≡ true
  pub selected : extra row ≡ true
  pub first :
      (r : QueueItemRecord)
      → Memᴰ r db.queue_items
      → scheduled_queue_conditions db now r ≡ true
      → extra r ≡ true
      → before r row ≡ false
  pub returned : q ≡ claimed now by row
  pub left : db' ≡ after db (picks row) (claimed now by)

module _ (extra : QueueItemRecord → Bool) (now : Timestamp) (by : String) (db : Db) where
  first_of_all :
      (c : QueueItemRecord)
      → IsFirst before c (candidates extra now db)
      → (r : QueueItemRecord) → Memᴰ r db.queue_items
      → scheduled_queue_conditions db now r ≡ true
      → extra r ≡ true
      → before r c ≡ false
  first_of_all c f r m h k =
      All-mem (λ x. before x c ≡ false) (candidates extra now db) r f.1
        (keep-mem (λ q. scheduled_queue_conditions db now q && extra q) db.queue_items r m
          (rw (h, k)))

  pub WasClaimed-one :
      (c : QueueItemRecord)
      → IsFirst before c (candidates extra now db)
      → WasClaimed extra now by db (claimed now by c) (after db (picks c) (claimed now by))
  WasClaimed-one c f =
      let (m, h) =
        mem-keep (λ q. scheduled_queue_conditions db now q && extra q) db.queue_items c f.0 in
      record {
        row = c;
        in_table = m;
        scheduled = (and-true _ _ h).0;
        selected = (and-true _ _ h).1;
        first = first_of_all c f;
        returned = refl;
        left = refl;
      }

  -- On a well-formed table, the item that a claim returns is a row of the table, changed to running,
  -- that meets the scheduled conditions and the extra one; no row that meets both comes before it;
  -- and the rows left are the old ones with that one changed.
  pub claim-WasClaimed :
      (q : QueueItemRecord) (db' : Db)
      → IsWellFormed db
      → claim_next_impl extra now by db ≡ ok (some q, db')
      → WasClaimed extra now by db q db'
  claim-WasClaimed q db' w h = go (Claim-cases extra now by db w)
    where
      go : Claim extra now by db → WasClaimed extra now by db q db'
      go (nothing e k) = cc
      go (one c f k) =
          let e : claimed now by c ≡ q = cc in
          let e' : after db (picks c) (claimed now by) ≡ db' = cc in
          subst (λ x. WasClaimed extra now by db q x) e'
            (subst (λ x. WasClaimed extra now by db x (after db (picks c) (claimed now by))) e
              (WasClaimed-one c f))

  -- A claim on a well-formed table that returns nothing leaves no row that it could have taken: none
  -- that meets both the scheduled conditions and the extra one.
  pub claim-none_left :
      (db' : Db)
      → IsWellFormed db
      → claim_next_impl extra now by db ≡ ok (none, db')
      → (r : QueueItemRecord) → Memᴰ r db.queue_items
      → (scheduled_queue_conditions db now r && extra r) ≡ false
  claim-none_left db' w h r m = go (Claim-cases extra now by db w)
    where
      go : Claim extra now by db → (scheduled_queue_conditions db now r && extra r) ≡ false
      go (nothing e k) = elim (Bool-cases (scheduled_queue_conditions db now r && extra r)) [
        | inl t ↦ absurd (
            Memᴰ-nil r (
              rw e at (
                keep-mem (λ q. scheduled_queue_conditions db now q && extra q) db.queue_items r m
                  t)))
        | inr f ↦ f
      ]
      go (one c f k) = cc

  -- No claim on a well-formed table fails.
  pub claim-succeeds :
      IsWellFormed db
      → (r : Option QueueItemRecord) × (db' : Db) × (claim_next_impl extra now by db ≡ ok (r, db'))
  claim-succeeds w = elim (Claim-cases extra now by db w) [
    | nothing e k ↦ (none, db, k)
    | one c f k ↦ (some (claimed now by c), after db (picks c) (claimed now by), k)
  ]

turned_running :
    (now : Timestamp) (by : String) (c r : QueueItemRecord)
    → picks c r ≡ true
    → ((r.status == "running") ≡ false) × (((claimed now by r).status == "running") ≡ true)
turned_running now by c r h = (eq_other r.status "queued" "running" ((and-true _ _ h).1) refl, refl)

module _ {extra : QueueItemRecord → Bool} {now : Timestamp} {by : String} {db : Db}
    {q : QueueItemRecord} {db' : Db} where
  pub WasClaimed-IsWellFormed :
      IsWellFormed db → WasClaimed extra now by db q db' → IsWellFormed db'
  WasClaimed-IsWellFormed w c =
      subst IsWellFormed (sym c.left)
        (after-IsWellFormed db (picks c.row) (claimed now by) (claimed-IsSafeOn db now by c.row) w)

  -- a claim adds one to the running items
  pub count-WasClaimed :
      IsWellFormed db
      → WasClaimed extra now by db q db'
      → count_by_status db' "running" ≡ count_by_status db "running" + 1
  unfolding count_by_status
  count-WasClaimed w c =
      let queued = scheduled-queued extra now by db c.row (rw (c.scheduled, c.selected)) in
      let single = keep-picks c.row db.queue_items w.ids_differ c.in_table queued in
      let counted =
        count-map_add (λ (r : QueueItemRecord). r.status == "running") (picks c.row)
          (claimed now by) (turned_running now by c.row) db.queue_items in
      rw (c.left) (rw counted (rw single))
