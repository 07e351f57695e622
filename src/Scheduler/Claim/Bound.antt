-- ===== src/Scheduler/Claim/Bound.antt =====
-- The claim loop of crates/looper-scheduler/src/claim.rs keeps to its slots.
use looper_rust.Prelude.{
  ℕ, zero, suc, ◌+◌, ◌≤◌, String, ◌≡◌, Bool, none, some, List, [], ◌∷◌, length, length-append,
  arith,
}
use looper_rust.Storage.Schema.{QueueItemRecord, Timestamp, Db, ok}
use looper_rust.Storage.WellFormed.{IsWellFormed}
use looper_rust.Storage.Queue.{
  non_long_term, long_term, claim_next_impl, claim_next_non_long_term_retry,
  claim_next_long_term_retry, count_by_status,
}
use looper_rust.Storage.Queue.Claim.{nothing, one, Claim-cases}
use looper_rust.Storage.Queue.Claimed.{WasClaimed-one, WasClaimed-IsWellFormed, count-WasClaimed}
use looper_rust.Scheduler.Claim.{
  HandlerMap, claim_up_to, claim_and_run, compute_available_slots, execute_claim_pass,
}

-- what a loop of claims from `db` did, with at most `n` slots
pub record IsWithin (n : ℕ) (db : Db) (items : List QueueItemRecord) (db' : Db) : Type 0 where
  pub slots : length items ≤ n
  pub well_formed : IsWellFormed db'
  pub counted : count_by_status db' "running" ≡ count_by_status db "running" + length items

module _ (extra : QueueItemRecord → Bool) (now : Timestamp) (by : String) where
  pub claim_up_to-stop :
      (n : ℕ) (db db' : Db)
      → claim_next_impl extra now by db ≡ ok (none, db')
      → claim_up_to (claim_next_impl extra now by) (suc n) db ≡ ([], db')
  unfolding claim_up_to
  claim_up_to-stop n db db' e = rw (e, claim_up_to)

  pub claim_up_to-more :
      (n : ℕ) (db db' : Db) (item : QueueItemRecord)
      → claim_next_impl extra now by db ≡ ok (some item, db')
      → claim_up_to (claim_next_impl extra now by) (suc n) db ≡ (
          let (items, db'') = claim_up_to (claim_next_impl extra now by) n db' in
          (item ∷ items, db''))
  unfolding claim_up_to
  claim_up_to-more n db db' item e = rw (e, claim_up_to)

  pub claim_up_to-IsWithin :
      (n : ℕ) (db : Db)
      → IsWellFormed db
      → IsWithin n db
          (claim_up_to (claim_next_impl extra now by) n db).0
          (claim_up_to (claim_next_impl extra now by) n db).1
  claim_up_to-IsWithin zero db w =
      unfold claim_up_to in record { slots = omega arith; well_formed = w; counted = omega arith }
  claim_up_to-IsWithin (suc n) db w = elim (Claim-cases extra now by db w) [
    | nothing e k ↦
        rw (claim_up_to-stop n db db k)
          (record { slots = omega arith; well_formed = w; counted = omega arith })
    | one c f k ↦ rw (claim_up_to-more n db _ _ k) (
        let was = WasClaimed-one extra now by db c f in
        let rest = claim_up_to-IsWithin n _ (WasClaimed-IsWellFormed w was) in
        record {
          slots = omega (arith, rest.slots);
          well_formed = rest.well_formed;
          counted = omega (arith, rest.counted, count-WasClaimed w was);
        })
  ]

module _ (h : HandlerMap) (now : Timestamp) where
  -- On a well-formed table, a run of claims takes at most the slots it is given, keeps the table
  -- well-formed, and raises the number of running items by exactly the number that it returns.
  pub claim_and_run-IsWithin :
      (slots : ℕ) (db : Db)
      → IsWellFormed db
      → IsWithin slots db
          (claim_and_run h now slots db).queue_items
          (claim_and_run h now slots db).db
  unfolding claim_and_run claim_next_non_long_term_retry claim_next_long_term_retry
  claim_and_run-IsWithin slots db w =
      let short = claim_up_to-IsWithin non_long_term now "scheduler" slots db w in
      let long = claim_up_to-IsWithin long_term now "scheduler" _ _ short.well_formed in
      record {
        slots = omega (arith, short.slots, long.slots, length-append {0});
        well_formed = long.well_formed;
        counted = omega (arith, short.counted, long.counted, length-append {0});
      }

  -- On a well-formed table with at most the configured maximum of running items, a claim pass
  -- leaves at most that maximum running.
  pub execute_claim_pass-bound :
      (max : ℕ) (db : Db)
      → IsWellFormed db
      → count_by_status db "running" ≤ max
      → count_by_status (execute_claim_pass h max now db).db "running" ≤ max
  unfolding execute_claim_pass compute_available_slots
  execute_claim_pass-bound max db w le =
      ground (arith, claim_and_run-IsWithin (compute_available_slots max db) db w)
