-- ===== src/Scheduler/Claim/Drained.antt =====
-- The claim loop of crates/looper-scheduler/src/claim.rs leaves no work behind while it has slots.
use looper_rust.Prelude.{
  ℕ, zero, suc, ◌<◌, String, ◌==◌, ◌≡◌, refl, sym, ◌∙◌, Bool, true, false, ◌&&◌, List, [], ◌∷◌,
  length, length-append, any, map, Memᴰ, Memᴰ-nil, Bool-cases, inl, inr, arith, and-true,
}
use looper_rust.Storage.Schema.{QueueItemRecord, Timestamp, Db, is_active}
use looper_rust.Storage.WellFormed.{IsWellFormed, after, touched}
use looper_rust.Storage.Queue.{
  scheduled_queue_conditions, claimed, non_long_term, long_term, claim_next_impl,
  claim_next_non_long_term_retry, claim_next_long_term_retry,
}
use looper_rust.Storage.Sql.{sql_eq_columns}
use looper_rust.Storage.Queue.Claim.{nothing, one, Claim-cases, picks}
use looper_rust.Storage.Queue.Claimed.{WasClaimed-one, WasClaimed-IsWellFormed, claim-none_left}
use looper_rust.Scheduler.Claim.{HandlerMap, claim_up_to, claim_and_run}
use looper_rust.Scheduler.Claim.Bound.{claim_up_to-stop, claim_up_to-more, claim_up_to-IsWithin}

any-map_eq {ℓ κ} :
    {A : Type ℓ} {B : Type κ} (p : A → Bool) (p' : B → Bool) (f : A → B)
    → ((a : A) → p' (f a) ≡ p a)
    → (xs : List A) → any p' (map f xs) ≡ any p xs
any-map_eq p p' f h [] = refl
any-map_eq p p' f h (x ∷ xs) = rw (h x, any-map_eq p p' f h xs)

Memᴰ-map :
    {A : Type 0} (f : A → A) (xs : List A) (b : A)
    → Memᴰ b (map f xs)
    → (a : A) × Memᴰ a xs × (f a ≡ b)
Memᴰ-map f [] b m = absurd (Memᴰ-nil b m)
Memᴰ-map f (x ∷ xs) b (Memᴰ.head e) = (x, Memᴰ.head refl, sym e)
Memᴰ-map f (x ∷ xs) b (Memᴰ.tail m) = let (a, n, e) = Memᴰ-map f xs b m in (a, Memᴰ.tail n, e)

queued_of :
    (db : Db) (now : Timestamp) (r : QueueItemRecord)
    → scheduled_queue_conditions db now r ≡ true
    → (r.status == "queued") ≡ true
unfolding scheduled_queue_conditions
queued_of db now r h = (and-true _ _ h).0

-- no row could be claimed under the extra condition
abbrev pub IsIdle : (QueueItemRecord → Bool) → Timestamp → Db → Type 0
IsIdle extra now db =
    (r : QueueItemRecord)
    → Memᴰ r db.queue_items
    → (scheduled_queue_conditions db now r && extra r) ≡ false

module _ (now : Timestamp) (by : String) (db : Db) (c : QueueItemRecord) where
  -- a claimed row is as active as it was
  still_active :
      (q : QueueItemRecord) → picks c q ≡ true → is_active (claimed now by q) ≡ is_active q
  unfolding is_active
  still_active q h = let queued : (q.status == "queued") ≡ true = ground arith in rw queued

  abbrev behind : QueueItemRecord → QueueItemRecord → Bool
  behind r x = sql_eq_columns x.loop_id r.loop_id && (x.type == "reviewer" && is_active x)

  same_behind :
      (r q : QueueItemRecord) → behind r (touched db (picks c) (claimed now by) q) ≡ behind r q
  same_behind r q = elim (Bool-cases (picks c q)) [
    | inl e ↦ rw e (rw (still_active q e))
    | inr e ↦ rw e
  ]

  -- a claim changes the conditions of no row
  scheduled-after :
      (r : QueueItemRecord)
      → scheduled_queue_conditions (after db (picks c) (claimed now by)) now r
        ≡ scheduled_queue_conditions db now r
  unfolding scheduled_queue_conditions
  scheduled-after r = rw (
      any-map_eq (behind r) (behind r) (touched db (picks c) (claimed now by)) (same_behind r)
        db.queue_items)

  -- a row that is still scheduled after a claim was in the table before
  scheduled-before :
      (r : QueueItemRecord)
      → Memᴰ r (after db (picks c) (claimed now by)).queue_items
      → scheduled_queue_conditions (after db (picks c) (claimed now by)) now r ≡ true
      → Memᴰ r db.queue_items × (scheduled_queue_conditions db now r ≡ true)
  scheduled-before r m h =
      let (q, n, e) = Memᴰ-map (touched db (picks c) (claimed now by)) db.queue_items r m in
      elim (Bool-cases (picks c q)) [
        | inl k ↦
            let running : claimed now by q ≡ r = rw k at e in
            let queued : ((claimed now by q).status == "queued") ≡ true =
              rw (← running) at (queued_of (after db (picks c) (claimed now by)) now r h) in
            cc
        | inr k ↦ let same : q ≡ r = rw k at e in (rw (← same) n, sym (scheduled-after r) ∙ h)
      ]

  claim-IsIdle :
      (extra : QueueItemRecord → Bool)
      → IsIdle extra now db
      → IsIdle extra now (after db (picks c) (claimed now by))
  claim-IsIdle extra idle r m =
      elim (Bool-cases
        (scheduled_queue_conditions (after db (picks c) (claimed now by)) now r && extra r)) [
          | inr f ↦ f
          | inl t ↦
              let parts =
                and-true (scheduled_queue_conditions (after db (picks c) (claimed now by)) now r)
                  (extra r) t in
              let (n, k) = scheduled-before r m parts.0 in
              let no = idle r n in
              let selected = parts.1 in let both : true ≡ false = rw (k, selected) at no in cc
        ]

module _ (extra : QueueItemRecord → Bool) (now : Timestamp) (by : String) where
  -- further claims leave an idle table idle
  claim_up_to-IsIdle :
      (other : QueueItemRecord → Bool) (n : ℕ) (db : Db)
      → IsWellFormed db
      → IsIdle other now db
      → IsIdle other now (claim_up_to (claim_next_impl extra now by) n db).1
  claim_up_to-IsIdle other zero db w idle = unfold claim_up_to in idle
  claim_up_to-IsIdle other (suc n) db w idle = elim (Claim-cases extra now by db w) [
    | nothing e k ↦ rw (claim_up_to-stop extra now by n db db k) idle
    | one c f k ↦ rw (claim_up_to-more extra now by n db _ _ k) (
        claim_up_to-IsIdle other n _
          (WasClaimed-IsWellFormed w (WasClaimed-one extra now by db c f))
          (claim-IsIdle now by db c other idle))
  ]

  -- a loop that ends before its slots are used up leaves nothing to claim
  claim_up_to-drains :
      (n : ℕ) (db : Db)
      → IsWellFormed db
      → length (claim_up_to (claim_next_impl extra now by) n db).0 < n
      → IsIdle extra now (claim_up_to (claim_next_impl extra now by) n db).1
  claim_up_to-drains zero db w h = absurd (omega arith)
  claim_up_to-drains (suc n) db w h = elim (Claim-cases extra now by db w) [
    | nothing e k ↦
        rw (claim_up_to-stop extra now by n db db k) (claim-none_left extra now by db db w k)
    | one c f k ↦
        let more = claim_up_to-more extra now by n db _ _ k in
        let fewer = rw more at h in
        rw more (
          claim_up_to-drains n _ (WasClaimed-IsWellFormed w (WasClaimed-one extra now by db c f))
            (omega (arith, fewer)))
  ]

-- On a well-formed table, a run of claims that returns fewer items than it has slots leaves no row
-- that either of its claims could take.
pub claim_and_run-drains :
    (h : HandlerMap) (now : Timestamp) (slots : ℕ) (db : Db)
    → IsWellFormed db
    → length (claim_and_run h now slots db).queue_items < slots
    → IsIdle non_long_term now (claim_and_run h now slots db).db
      × IsIdle long_term now (claim_and_run h now slots db).db
unfolding claim_and_run claim_next_non_long_term_retry claim_next_long_term_retry
claim_and_run-drains h now slots db w few =
    let short = claim_up_to-IsWithin non_long_term now "scheduler" slots db w in
    (
      claim_up_to-IsIdle long_term now "scheduler" non_long_term _ _ short.well_formed (
          claim_up_to-drains non_long_term now "scheduler" slots db w
            (omega (arith, few, length-append {0}))),
      claim_up_to-drains long_term now "scheduler" _ _ short.well_formed
          (omega (arith, few, length-append {0})),
    )
