-- ===== src/Storage/Reads/Agreed.antt =====
-- `list_scheduled` and `claim_next` of crates/looper-storage/src/repos/queue.rs.
use looper_rust.Prelude.{
  ℕ, suc, String, Bool, true, ◌&&◌, ◌≡◌, refl, sym, ◌∙◌, ap, some, List, [], ◌∷◌, keep, pos, arith,
}
use looper_rust.Storage.Schema.{QueueItemRecord, Timestamp, Db, ok}
use looper_rust.Storage.Sql.{order_by, limit, best}
use looper_rust.Storage.Sql.Heads.{head, head-order_by}
use looper_rust.Storage.WellFormed.{IsWellFormed, after}
use looper_rust.Storage.Queue.{before, scheduled_queue_conditions, candidates, claimed, claim_next}
use looper_rust.Storage.Queue.Order.{before-IsWeakOrder}
use looper_rust.Storage.Queue.Rows.{keep-ext}
use looper_rust.Storage.Queue.Claim.{picks, claim-one}
use looper_rust.Storage.Reads.{list_scheduled}

head-limit {ℓ} : {A : Type ℓ} (n : ℕ) (xs : List A) → head (limit (suc n) xs) ≡ head xs
unfolding limit
head-limit n [] = refl
head-limit n (x ∷ xs) = refl

and_true : (b : Bool) → (b && true) ≡ b
and_true b = ground arith

-- On a well-formed table, the item at the head of the list of the scheduled items is the one that
-- the next claim takes, whatever the limit of the list, if it is positive. Among items that tie in
-- the order of the claims, both take the first of the table.
pub list_scheduled-claim_next :
    (now : Timestamp) (by : String) (n : ℕ) (db : Db) (c : QueueItemRecord)
    → IsWellFormed db
    → head (list_scheduled now (pos (suc n)) db) ≡ some c
    → claim_next now by db ≡ ok (some (claimed now by c), after db (picks c) (claimed now by))
unfolding list_scheduled claim_next
list_scheduled-claim_next now by n db c w h =
    let rows = keep (scheduled_queue_conditions db now) db.queue_items in
    let same : candidates (λ q. true) now db ≡ rows =
      keep-ext (λ q. scheduled_queue_conditions db now q && true)
        (scheduled_queue_conditions db now) (λ q. and_true (scheduled_queue_conditions db now q))
        db.queue_items in
    claim-one (λ q. true) now by db w c
      (ap (best before) same
        ∙ sym (head-order_by before before-IsWeakOrder rows)
        ∙ sym (head-limit n (order_by before rows))
        ∙ h)
