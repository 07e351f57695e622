-- ===== src/Service/AdmitWork/Twice.antt =====
-- `admit_work` of crates/looper-service/src/admit_work.rs, called again with the same input.
use looper_rust.Prelude.{
  String, Bool, false, ◌≡◌, refl, sym, ◌∙◌, subst, inl, inr, some, any, Option-cases,
}
use looper_rust.Storage.Schema.{
  Timestamp, QueueItemRecord, LoopRecord, ProjectRecord, Db, is_active,
}
use looper_rust.Storage.Schema
use looper_rust.Storage.Loops.{has_id}
use looper_rust.Storage.Projects
use looper_rust.Storage.Insert.{create_or_get_active_by_dedupe}
use looper_rust.Storage.Ops.Deduped.{
  create-Deduped, Deduped-found, Deduped-loops, Deduped-projects, create-there,
}
use looper_rust.Types.LoopType.{LoopType}
use looper_rust.Service.Outcome.{ok, err, ServiceError, storage, project_not_found}
use looper_rust.Service.Loops.Steps.{Stored-cases}
use looper_rust.Service.Library.{Library}
use looper_rust.Service.AdmitWork.{
  AdmitWorkInput, AdmitWorkResult, RoleTarget, parse_role, resolve_role_target,
}
use looper_rust.Service.AdmitWork.Admit.{chosen_repo, create_or_reuse_loop, candidate, admit_work}
use looper_rust.Service.Answers.{
  Result-cases, Answer-cases, not_both, same_value, same_store, list-loops,
}
use looper_rust.Service.AdmitWork.Reused.{
  reuse, create_or_reuse_loop-Reuses, Reuses-found, Reuses-projects,
}

module _ {Json : Type 0} (lib : Library Json) (input : AdmitWorkInput Json) where
  -- what the input and the projects of the store determine
  pub record Prepared (db : Db) (role : LoopType) (repo : String) (t : RoleTarget) : Type 0 where
    pub project : ProjectRecord
    pub parsed : parse_role lib input.role ≡ ok role
    pub found : Projects.get_by_id input.project_id db.projects ≡ some project
    pub chosen : chosen_repo lib input.repo project ≡ ok repo
    pub resolved :
        resolve_role_target lib role input.project_id repo input.issue_number input.pr_number ≡ ok t

  -- The runs of `admit_work`.
  data Run (now : Timestamp) (loop_id item_id : String) (db : Db) : Type 0 where
    failed :
        (e : ServiceError) (d : Db)
        → admit_work lib input now loop_id item_id db ≡ (err e, d)
        → Run now loop_id item_id db
    admitted :
        (role : LoopType) (repo : String) (t : RoleTarget) (l : LoopRecord) (b : Bool) (d : Db)
        (q : QueueItemRecord) (is_new : Bool) (d' : Db)
        → Prepared db role repo t
        → create_or_reuse_loop lib input.project_id role t repo input.metadata now loop_id db
          ≡ (ok (l, b), d)
        → create_or_get_active_by_dedupe (candidate lib input role repo t l.id now item_id) d
          ≡ Schema.ok ((q, is_new), d')
        → admit_work lib input now loop_id item_id db
          ≡ (ok (record { loop_record = l; queue_item = q; created_new_loop = b }), d')
        → Run now loop_id item_id db

  module _ (now : Timestamp) (loop_id item_id : String) (db : Db) where
    admit_work-writes :
        (role : LoopType) (repo : String) (t : RoleTarget)
        → Prepared db role repo t
        → Run now loop_id item_id db
    admit_work-writes role repo t p =
        elim (Answer-cases
          (create_or_reuse_loop lib input.project_id role t repo input.metadata now loop_id db)) [
            | inr (e, d, f) ↦
                failed e d
                  (unfold admit_work in rw (p.parsed, p.found, p.chosen, p.resolved, f) refl)
            | inl ((l, b), d, f) ↦
                elim (Stored-cases (
                  create_or_get_active_by_dedupe (candidate lib input role repo t l.id now item_id)
                    d)) [
                      | inr (e, g) ↦ failed (storage e) d (
                          unfold admit_work in
                          rw (p.parsed, p.found, p.chosen, p.resolved, f, g) refl)
                      | inl (((q, is_new), d'), g) ↦ admitted role repo t l b d q is_new d' p f g (
                          unfold admit_work in
                          rw (p.parsed, p.found, p.chosen, p.resolved, f, g) refl)
                    ]
          ]

    admit_work-Run : Run now loop_id item_id db
    admit_work-Run = elim (Result-cases (parse_role lib input.role)) [
      | inr (e, f) ↦ failed e db (unfold admit_work in rw f refl)
      | inl (role, f) ↦ elim (Option-cases (Projects.get_by_id input.project_id db.projects)) [
        | inl g ↦
            failed (project_not_found input.project_id) db (unfold admit_work in rw (f, g) refl)
        | inr (project, g) ↦ elim (Result-cases (chosen_repo lib input.repo project)) [
          | inr (e, h) ↦ failed e db (unfold admit_work in rw (f, g, h) refl)
          | inl (repo, h) ↦
              elim (Result-cases (
                resolve_role_target lib role input.project_id repo input.issue_number
                  input.pr_number)) [
                    | inr (e, k) ↦ failed e db (unfold admit_work in rw (f, g, h, k) refl)
                    | inl (t, k) ↦ admit_work-writes role repo t (record {
                      project = project;
                      parsed = f;
                      found = g;
                      chosen = h;
                      resolved = k;
                    })
                  ]
        ]
      ]
    ]

  module _ (now : Timestamp) (loop_id item_id : String) (db : Db) (role : LoopType) (repo : String)
      (t : RoleTarget) (l : LoopRecord) (b : Bool) (d : Db) (q : QueueItemRecord) (is_new : Bool)
      (d' : Db) (fresh : any (has_id loop_id) db.loops ≡ false) (p : Prepared db role repo t)
      (f : create_or_reuse_loop lib input.project_id role t repo input.metadata now loop_id db
        ≡ (ok (l, b), d))
      (g : create_or_get_active_by_dedupe (candidate lib input role repo t l.id now item_id) d
        ≡ Schema.ok ((q, is_new), d')) where
    -- after a run that succeeded the next one takes what is there
    runs_again :
        (now' : Timestamp) (loop_id' item_id' : String)
        → admit_work lib input now' loop_id' item_id' d'
          ≡ (ok (record { loop_record = l; queue_item = q; created_new_loop = false }), d')
    unfolding admit_work is_active
    runs_again now' loop_id' item_id' =
        let c = candidate lib input role repo t l.id now item_id in
        let c' = candidate lib input role repo t l.id now' item_id' in
        let reused =
          create_or_reuse_loop-Reuses lib input.project_id role t repo input.metadata now loop_id db
            l b d f in
        let found =
          Reuses-found lib input.project_id role t repo input.metadata now loop_id db l d fresh
            reused in
        let deduped = create-Deduped c d q d' is_new g in
        let kept : d'.projects ≡ db.projects =
          Deduped-projects c d q d' deduped
          ∙ Reuses-projects lib input.project_id role t repo input.metadata now loop_id db l d
              reused in
        let project : Projects.get_by_id input.project_id d'.projects ≡ some p.project =
          rw kept p.found in
        let again =
          reuse lib input.project_id role t repo input.metadata now' loop_id' d' l
            (list-loops _ d' d (Deduped-loops c d q d' deduped) ∙ found) in
        let item = create-there c' d' q (Deduped-found c d q d' deduped refl) in
        rw (p.parsed, project, p.chosen, p.resolved, again, item) refl

  -- A call of `admit_work` that succeeded, and drew a fresh id for a new loop, is not repeated by a
  -- second call with the same input: at any time and with any ids this returns the same loop and the
  -- same queue item, creates no loop, and leaves the store as it is.
  pub admit_work_twice :
      (now now' : Timestamp) (loop_id loop_id' item_id item_id' : String) (db db' : Db)
      (r : AdmitWorkResult)
      → any (has_id loop_id) db.loops ≡ false
      → admit_work lib input now loop_id item_id db ≡ (ok r, db')
      → admit_work lib input now' loop_id' item_id' db'
        ≡ (ok (record r { created_new_loop = false }), db')
  admit_work_twice now now' loop_id loop_id' item_id item_id' db db' r fresh h =
      elim (admit_work-Run now loop_id item_id db) [
        | failed e d k ↦ absurd (not_both e r d db' (sym k ∙ h))
        | admitted role repo t l b d q is_new d' p f g k ↦
            (let s : AdmitWorkResult = record {
              loop_record = l;
              queue_item = q;
              created_new_loop = b;
            } in
              subst
                (λ x.
                  admit_work lib input now' loop_id' item_id' x
                  ≡ (ok (record r { created_new_loop = false }), x))
                (same_store s r d' db' (sym k ∙ h))
                (subst
                  (λ (x : AdmitWorkResult).
                    admit_work lib input now' loop_id' item_id' d'
                    ≡ (ok (record x { created_new_loop = false }), d'))
                  (same_value s r d' db' (sym k ∙ h))
                  (runs_again now loop_id item_id db role repo t l b d q is_new d' fresh p f g now'
                    loop_id' item_id')))
      ]
