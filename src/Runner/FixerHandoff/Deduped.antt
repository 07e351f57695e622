-- ===== src/Runner/FixerHandoff/Deduped.antt =====
-- `ensure_fixer_queue_item` of crates/looper-runner/src/fixer_handoff.rs, called again for one pull request.
use looper_rust.Prelude.{
  ℤ, eqb_ℤ, String, eq_refl, Bool, true, false, ◌≡◌, refl, sym, ◌∙◌, subst, inl, inr, Option, none,
  some, List, any, arith, Option-cases,
}
use looper_rust.Storage.Schema.{Timestamp, QueueItemRecord, LoopRecord, Db, is_active}
use looper_rust.Storage.Schema
use looper_rust.Storage.Loops
use looper_rust.Storage.Loops.{find_loop, has_id}
use looper_rust.Storage.Loops.Found.{find-upsert}
use looper_rust.Storage.Insert.{create_or_get_active_by_dedupe}
use looper_rust.Storage.Ops.Deduped.{create-Deduped, Deduped-found, Deduped-loops, create-there}
use looper_rust.Service.Outcome.{Result, ok, err, ServiceError, storage}
use looper_rust.Service.Loops.Steps.{Stored-cases}
use looper_rust.Service.Answers.{
  Answer-cases, not_both, same_value, same_store, allocate-list, allocate-any, list-loops,
}
use looper_rust.Runner.FixerHandoff.{
  FixerEnqueueResult, is_open_fixer, fixer_loop, new_fixer_loop, fixer_loop_id, fixer_item,
  ensure_fixer_queue_item, fixer_dedupe_key,
}

eqb_refl : (n : ℤ) → eqb_ℤ n n ≡ true
eqb_refl n = ground arith

module _ (to_string : ℤ → String) (to_json : List (String × String) → String) (project_id : String)
    (pr_number : ℤ) where
  module _ (repo : Option String) (why : String) (now : Timestamp) where
    taken :
        (id : String) (db : Db) (l : LoopRecord)
        → find_loop (is_open_fixer project_id pr_number) (Loops.list db) ≡ some l
        → fixer_loop_id to_string to_json project_id repo pr_number why now id db ≡ (ok l.id, db)
    unfolding fixer_loop_id
    taken id db l e = rw (e, fixer_loop_id) refl

    absent :
        (id : String) (db : Db)
        → find_loop (is_open_fixer project_id pr_number) (Loops.list db) ≡ none
        → fixer_loop_id to_string to_json project_id repo pr_number why now id db
          ≡ new_fixer_loop to_string to_json project_id repo pr_number why now id db
    unfolding fixer_loop_id
    absent id db e = rw (e, fixer_loop_id) refl

    new_open :
        (id : String) (seq : ℤ)
        → is_open_fixer project_id pr_number
            (fixer_loop to_string to_json project_id repo pr_number why now id seq)
          ≡ true
    new_open id seq = rw (eq_refl project_id, eqb_refl pr_number) refl

    -- an open fixer loop of the id is found, now that the call is over
    loop_found :
        (id loop_id : String) (db d : Db)
        → any (has_id id) db.loops ≡ false
        → fixer_loop_id to_string to_json project_id repo pr_number why now id db ≡ (ok loop_id, d)
        → (l : LoopRecord) × (find_loop (is_open_fixer project_id pr_number) (Loops.list d)
            ≡ some l)
          × (l.id ≡ loop_id)
    loop_found id loop_id db d fresh h =
        let p = is_open_fixer project_id pr_number in
        elim (Option-cases (find_loop p (Loops.list db))) [
          | inr (l, e) ↦
              (let k : ◌≡◌ {A = Result String × Db} (ok l.id, db) (ok loop_id, d) =
                  sym (taken id db l e) ∙ h in
                (
                  l,
                  subst (λ x. find_loop p (Loops.list x) ≡ some l) (same_store l.id loop_id db d k)
                      e,
                  same_value l.id loop_id db d k,
                ))
          | inl e ↦
              (let a =
                  fixer_loop to_string to_json project_id repo pr_number why now id
                    (Loops.allocate_seq db).0 in
                let run : new_fixer_loop to_string to_json project_id repo pr_number why now id db
                    ≡ (ok loop_id, d) =
                  sym (absent id db e) ∙ h in
                elim (Stored-cases (Loops.upsert a (Loops.allocate_seq db).1)) [
                  | inr (x, g) ↦
                      (let r : new_fixer_loop to_string to_json project_id repo pr_number why now id
                              db
                            ≡ (err (storage x), (Loops.allocate_seq db).1) =
                          unfold new_fixer_loop in rw g refl in
                        absurd
                          (not_both (storage x) loop_id (Loops.allocate_seq db).1 d (sym r ∙ run)))
                  | inl (d', g) ↦
                      (let r : new_fixer_loop to_string to_json project_id repo pr_number why now id
                              db
                            ≡ (ok id, d') =
                          unfold new_fixer_loop in rw g refl in
                        let there =
                          find-upsert p a (Loops.allocate_seq db).1 d' g
                            (new_open id (Loops.allocate_seq db).0) (allocate-list p db ∙ e)
                            (allocate-any (has_id id) db ∙ fresh) in
                        (
                          a,
                          subst (λ x. find_loop p (Loops.list x) ≡ some a)
                              (same_store id loop_id d' d (sym r ∙ run)) there,
                          same_value id loop_id d' d (sym r ∙ run),
                        ))
                ])
        ]

  abbrev answer : QueueItemRecord → Bool → String → FixerEnqueueResult
  answer q is_new loop_id = record {
    queue_item = q;
    is_new = is_new;
    loop_id = loop_id;
    dedupe_key = fixer_dedupe_key to_string project_id pr_number;
  }

  -- the runs of `ensure_fixer_queue_item`
  data Run (repo : Option String) (why : String) (now : Timestamp) (id item_id : String) (db : Db)
      : Type 0 where
    failed :
        (e : ServiceError) (d : Db)
        → ensure_fixer_queue_item to_string to_json project_id repo pr_number why now id item_id db
          ≡ (err e, d)
        → Run repo why now id item_id db
    ensured :
        (loop_id : String) (d : Db) (q : QueueItemRecord) (is_new : Bool) (d' : Db)
        → fixer_loop_id to_string to_json project_id repo pr_number why now id db ≡ (ok loop_id, d)
        → create_or_get_active_by_dedupe
            (fixer_item to_string to_json project_id repo pr_number why now loop_id item_id)
            d
          ≡ Schema.ok ((q, is_new), d')
        → ensure_fixer_queue_item to_string to_json project_id repo pr_number why now id item_id db
          ≡ (ok (answer q is_new loop_id), d')
        → Run repo why now id item_id db

  ensure-Run :
      (repo : Option String) (why : String) (now : Timestamp) (id item_id : String) (db : Db)
      → Run repo why now id item_id db
  ensure-Run repo why now id item_id db =
      elim (Answer-cases
        (fixer_loop_id to_string to_json project_id repo pr_number why now id db)) [
          | inr (e, d, f) ↦ failed e d (unfold ensure_fixer_queue_item in rw f refl)
          | inl (loop_id, d, f) ↦
              elim (Stored-cases (
                create_or_get_active_by_dedupe
                  (fixer_item to_string to_json project_id repo pr_number why now loop_id item_id)
                  d)) [
                    | inr (x, g) ↦
                        failed (storage x) d (unfold ensure_fixer_queue_item in rw (f, g) refl)
                    | inl (((q, is_new), d'), g) ↦
                        ensured loop_id d q is_new d' f g
                          (unfold ensure_fixer_queue_item in rw (f, g) refl)
                  ]
        ]

  runs_again :
      (repo repo' : Option String) (why why' : String) (now now' : Timestamp)
      (id id' item_id item_id' loop_id : String) (db d : Db) (q : QueueItemRecord) (is_new : Bool)
      (d' : Db)
      → any (has_id id) db.loops ≡ false
      → fixer_loop_id to_string to_json project_id repo pr_number why now id db ≡ (ok loop_id, d)
      → create_or_get_active_by_dedupe
          (fixer_item to_string to_json project_id repo pr_number why now loop_id item_id)
          d
        ≡ Schema.ok ((q, is_new), d')
      → ensure_fixer_queue_item to_string to_json project_id repo' pr_number why' now' id' item_id'
          d'
        ≡ (ok (answer q false loop_id), d')
  unfolding ensure_fixer_queue_item is_active
  runs_again repo repo' why why' now now' id id' item_id item_id' loop_id db d q is_new d' fresh f
        g =
      let c = fixer_item to_string to_json project_id repo pr_number why now loop_id item_id in
      let c' = fixer_item to_string to_json project_id repo' pr_number why' now' loop_id item_id' in
      let deduped = create-Deduped c d q d' is_new g in
      let (l, found, same) = loop_found repo why now id loop_id db d fresh f in
      let again =
        taken repo' why' now' id' d' l
          (list-loops _ d' d (Deduped-loops c d q d' deduped) ∙ found) in
      let item = create-there c' d' q (Deduped-found c d q d' deduped refl) in
      rw (again, same, item) refl

  -- A call of `ensure_fixer_queue_item` that succeeded, and drew a fresh id for a new loop, is not
  -- repeated by a second call for the same project and pull request: for any repository and reason,
  -- at any time and with any ids this returns the same item and the same loop, neither as new, and
  -- leaves the store as it is.
  pub ensure_twice :
      (repo repo' : Option String) (why why' : String) (now now' : Timestamp)
      (id id' item_id item_id' : String) (db db' : Db) (r : FixerEnqueueResult)
      → any (has_id id) db.loops ≡ false
      → ensure_fixer_queue_item to_string to_json project_id repo pr_number why now id item_id db
        ≡ (ok r, db')
      → ensure_fixer_queue_item to_string to_json project_id repo' pr_number why' now' id' item_id'
          db'
        ≡ (ok (record r { is_new = false }), db')
  ensure_twice repo repo' why why' now now' id id' item_id item_id' db db' r fresh h =
      elim (ensure-Run repo why now id item_id db) [
        | failed e d k ↦ absurd (not_both e r d db' (sym k ∙ h))
        | ensured loop_id d q is_new d' f g k ↦
            (let s = answer q is_new loop_id in
              subst
                (λ x.
                  ensure_fixer_queue_item to_string to_json project_id repo' pr_number why' now' id'
                    item_id' x
                  ≡ (ok (record r { is_new = false }), x))
                (same_store s r d' db' (sym k ∙ h))
                (subst
                  (λ (x : FixerEnqueueResult).
                    ensure_fixer_queue_item to_string to_json project_id repo' pr_number why' now'
                      id' item_id' d'
                    ≡ (ok (record x { is_new = false }), d'))
                  (same_value s r d' db' (sym k ∙ h))
                  (runs_again repo repo' why why' now now' id id' item_id item_id' loop_id db d q
                    is_new d' fresh f g)))
      ]
