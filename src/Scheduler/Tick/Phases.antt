-- ===== src/Scheduler/Tick/Phases.antt =====
-- The running items under one claim phase of crates/looper-scheduler/src/tick.rs.
use looper_rust.Prelude.{
  ℕ, ◌+◌, ◌≤◌, String, Bool, inl, inr, none, some, List, eqb, arith, Bool-cases, if◌then◌else◌,
}
use looper_rust.Storage.Schema.{Timestamp, Db}
use looper_rust.Storage.WellFormed.{IsWellFormed}
use looper_rust.Storage.Queue.{count_by_status}
use looper_rust.Scheduler.Claim.{
  HandlerMap, Reconcile, execute_claim_phase, reconciled, compute_available_slots, claim_and_run,
}
use looper_rust.Scheduler.Claim.Bound.{claim_and_run-IsWithin}

-- a change of the store that keeps the constraints of the queue and starts no item
pub record IsGentle (f : Db → Db) : Type 0 where
  pub keeps : (db : Db) → IsWellFormed db → IsWellFormed (f db)
  pub starts_none : (db : Db) → count_by_status (f db) "running" ≤ count_by_status db "running"

-- the queue keeps its constraints, and at most so many of its items run
pub record IsBounded (max : ℕ) (db : Db) : Type 0 where
  pub well_formed : IsWellFormed db
  pub bound : count_by_status db "running" ≤ max

pub IsGentle-IsBounded :
    (f : Db → Db) (max : ℕ) (db : Db) → IsGentle f → IsBounded max db → IsBounded max (f db)
IsGentle-IsBounded f max db g b = record {
  well_formed = g.keeps db b.well_formed;
  bound = omega (arith, b.bound, g.starts_none db);
}

abbrev pub IsGentleReconcile : Reconcile → Type 0
IsGentleReconcile none = Unit
IsGentleReconcile (some f) = IsGentle (λ db. (f db).1)

slots-fit :
    (max : ℕ) (db : Db)
    → count_by_status db "running" ≤ max
    → count_by_status db "running" + compute_available_slots max db ≤ max
unfolding compute_available_slots
slots-fit max db h = ground arith

claims-IsBounded :
    (h : HandlerMap) (now : Timestamp) (max n : ℕ) (db : Db)
    → IsBounded max db
    → count_by_status db "running" + n ≤ max
    → IsBounded max (claim_and_run h now n db).db
claims-IsBounded h now max n db b le =
    let w = claim_and_run-IsWithin h now n db b.well_formed in
    record { well_formed = w.well_formed; bound = omega (arith, w.counted, w.slots, le) }

-- the slots that are free after a reconciliation fit in
record IsFitting (max : ℕ) (r : ℕ × Db) : Type 0 where
  bounded : IsBounded max r.1
  slots : count_by_status r.1 "running" + r.0 ≤ max

module _ (max : ℕ) (db : Db) (b : IsBounded max db) where
  unrepaired : IsFitting max (compute_available_slots max db, db)
  unrepaired = record { bounded = b; slots = slots-fit max db b.bound }

  repaired :
      (f : Db → Bool × Db)
      → IsGentle (λ x. (f x).1)
      → IsFitting max (
        if (f db).0 then compute_available_slots max (f db).1 else compute_available_slots max db,
        (f db).1,
      )
  repaired f g =
      let b' = IsGentle-IsBounded (λ x. (f x).1) max db g b in
      record {
        bounded = b';
        slots = elim (Bool-cases (f db).0) [
          | inl e ↦ rw e (slots-fit max (f db).1 b'.bound)
          | inr e ↦ rw e (omega (arith, slots-fit max db b.bound, g.starts_none db))
        ];
      }

  reconciled-IsFitting : (r : Reconcile) → IsGentleReconcile r → IsFitting max (reconciled r max db)
  unfolding reconciled
  reconciled-IsFitting none g = elim (Bool-cases (eqb (compute_available_slots max db) 0)) [
    | inl e ↦ rw e unrepaired
    | inr e ↦ rw e unrepaired
  ]
  reconciled-IsFitting (some f) g = elim (Bool-cases (eqb (compute_available_slots max db) 0)) [
    | inl e ↦ rw e (repaired f g)
    | inr e ↦ rw e unrepaired
  ]

  pub phase-IsBounded :
      (h : HandlerMap) (r : Reconcile) (now : Timestamp) (ids : List String)
      → IsGentleReconcile r
      → IsBounded max (execute_claim_phase h r max now ids db).run.db
  unfolding execute_claim_phase
  phase-IsBounded h r now ids g =
      let fit = reconciled-IsFitting r g in
      elim (Bool-cases (eqb (reconciled r max db).0 0)) [
        | inl e ↦ rw e fit.bounded
        | inr e ↦ rw e (
            claims-IsBounded h now max (reconciled r max db).0 (reconciled r max db).1 fit.bounded
              fit.slots)
      ]
