-- ===== src/Service/AdmitWork/Reused.antt =====
-- `create_or_reuse_loop` of crates/looper-service/src/admit_work.rs, called again.
use looper_rust.Prelude.{
  ℤ, String, eq_refl, Bool, true, false, ◌≡◌, refl, sym, ◌∙◌, ap, subst, inl, inr, Option, none,
  some, any, Bool-cases, Option-cases,
}
use looper_rust.Storage.Schema.{Timestamp, QueueItemRecord, LoopRecord, ProjectRecord, Db}
use looper_rust.Storage.Schema
use looper_rust.Storage.Loops
use looper_rust.Storage.Loops.{find_loop, has_id}
use looper_rust.Storage.Loops.Table.{upsert-projects}
use looper_rust.Storage.Loops.Found.{find-upsert}
use looper_rust.Types.LoopType
use looper_rust.Types.LoopType.{LoopType, supports_target_type}
use looper_rust.Types.LoopStatus.{as_str}
use looper_rust.Types.LoopTarget.{loop_target_key}
use looper_rust.Service.Outcome.{
  Result, ok, err, ServiceError, storage, cannot_target, active_loop_conflict,
}
use looper_rust.Service.Loops.Steps.{Stored-cases}
use looper_rust.Service.Library.{Library}
use looper_rust.Service.Answers.{not_both, same_value, same_store, allocate-list, allocate-any}
use looper_rust.Service.AdmitWork.{RoleTarget, is_active_loop_status}
use looper_rust.Service.AdmitWork.Admit.{
  reusable, conflicting, admitted_loop, create_loop, create_or_reuse_loop, loop_matches_target,
}

module _ {Json : Type 0} (lib : Library Json) (project_id : String) (role : LoopType)
    (t : RoleTarget) (repo : String) (metadata : Option Json) where
  -- what a success of `create_or_reuse_loop` means
  pub data Reuses (now : Timestamp) (id : String) (db : Db) (l : LoopRecord) (db' : Db)
      : Type 0 where
    reused :
        find_loop (reusable lib project_id role t) (Loops.list db) ≡ some l
        → db ≡ db'
        → Reuses now id db l db'
    made :
        find_loop (reusable lib project_id role t) (Loops.list db) ≡ none
        → admitted_loop lib project_id role t repo metadata now id (Loops.allocate_seq db).0 ≡ l
        → Loops.upsert l (Loops.allocate_seq db).1 ≡ Schema.ok db'
        → Reuses now id db l db'

  new_reusable :
      (now : Timestamp) (id : String) (seq : ℤ)
      → reusable lib project_id role t
          (admitted_loop lib project_id role t repo metadata now id seq)
        ≡ true
  unfolding is_active_loop_status loop_matches_target as_str
  new_reusable now id seq =
      rw
        (
          eq_refl project_id,
          eq_refl (LoopType.as_str role),
          eq_refl (loop_target_key lib.to_string t.loop_target),
        )
        refl

  -- the runs of `create_loop`
  data Run (now : Timestamp) (id : String) (db : Db) : Type 0 where
    failed :
        (e : ServiceError) (d : Db)
        → create_loop lib project_id role t repo metadata now id db ≡ (err e, d)
        → Run now id db
    wrote :
        (d : Db)
        → Loops.upsert
            (admitted_loop lib project_id role t repo metadata now id (Loops.allocate_seq db).0)
            (Loops.allocate_seq db).1
          ≡ Schema.ok d
        → create_loop lib project_id role t repo metadata now id db ≡ (
          ok (
            admitted_loop lib project_id role t repo metadata now id (Loops.allocate_seq db).0,
            true,
          ),
          d,
        )
        → Run now id db

  create_loop-Run : (now : Timestamp) (id : String) (db : Db) → Run now id db
  create_loop-Run now id db =
      let a = admitted_loop lib project_id role t repo metadata now id (Loops.allocate_seq db).0 in
      let conflict =
        active_loop_conflict project_id (LoopType.as_str role)
          (loop_target_key lib.to_string t.loop_target) in
      elim (Bool-cases (any (conflicting lib project_id role t) (Loops.list db))) [
        | inl e ↦ failed conflict db (unfold create_loop in rw e refl)
        | inr e ↦ elim (Bool-cases (supports_target_type role t.loop_target.target_type)) [
          | inr f ↦
              failed (cannot_target role t.loop_target.target_type) db
                (unfold create_loop in rw (e, f) refl)
          | inl f ↦ elim (Stored-cases (Loops.upsert a (Loops.allocate_seq db).1)) [
            | inr (x, g) ↦
                failed (storage x) (Loops.allocate_seq db).1
                  (unfold create_loop in rw (e, f, g) refl)
            | inl (d, g) ↦ wrote d g (unfold create_loop in rw (e, f, g) refl)
          ]
        ]
      ]

  pub reuse :
      (now : Timestamp) (id : String) (db : Db) (l : LoopRecord)
      → find_loop (reusable lib project_id role t) (Loops.list db) ≡ some l
      → create_or_reuse_loop lib project_id role t repo metadata now id db ≡ (ok (l, false), db)
  unfolding create_or_reuse_loop
  reuse now id db l e = rw (e, create_or_reuse_loop) refl

  module _ (now : Timestamp) (id : String) (db : Db) (l : LoopRecord) (b : Bool) (db' : Db) where
    create_loop-Reuses :
        find_loop (reusable lib project_id role t) (Loops.list db) ≡ none
        → create_loop lib project_id role t repo metadata now id db ≡ (ok (l, b), db')
        → Reuses now id db l db'
    create_loop-Reuses n h = elim (create_loop-Run now id db) [
      | failed e d k ↦ absurd (not_both e (l, b) d db' (sym k ∙ h))
      | wrote d g k ↦
          (let a =
              admitted_loop lib project_id role t repo metadata now id (Loops.allocate_seq db).0 in
            let same : a ≡ l =
              ap (λ (x : LoopRecord × Bool). x.0) (same_value (a, true) (l, b) d db' (sym k ∙ h)) in
            let there = same_store (a, true) (l, b) d db' (sym k ∙ h) in
            made n same (
              subst (λ x. Loops.upsert x (Loops.allocate_seq db).1 ≡ Schema.ok db') same
                (g ∙ ap Schema.ok there)))
    ]

    pub create_or_reuse_loop-Reuses :
        create_or_reuse_loop lib project_id role t repo metadata now id db ≡ (ok (l, b), db')
        → Reuses now id db l db'
    create_or_reuse_loop-Reuses h =
        elim (Option-cases (find_loop (reusable lib project_id role t) (Loops.list db))) [
          | inl e ↦
              (let k : create_or_reuse_loop lib project_id role t repo metadata now id db
                    ≡ create_loop lib project_id role t repo metadata now id db =
                  unfold create_or_reuse_loop in rw (e, create_or_reuse_loop) refl in
                create_loop-Reuses e (sym k ∙ h))
          | inr (x, e) ↦
              (let k : ◌≡◌ {A = Result (LoopRecord × Bool) × Db} (ok (x, false), db)
                    (ok (l, b), db') =
                  sym (reuse now id db x e) ∙ h in
                reused
                  (e
                    ∙ ap (λ (v : LoopRecord × Bool). some v.0)
                        (same_value (x, false) (l, b) db db' k))
                  (same_store (x, false) (l, b) db db' k))
        ]

  -- the loop is found by the next search
  pub Reuses-found :
      (now : Timestamp) (id : String) (db : Db) (l : LoopRecord) (db' : Db)
      → any (has_id id) db.loops ≡ false
      → Reuses now id db l db'
      → find_loop (reusable lib project_id role t) (Loops.list db') ≡ some l
  Reuses-found now id db l db' fresh (reused e f) = rw (sym f) e
  Reuses-found now id db l db' fresh (made n e up) =
      find-upsert (reusable lib project_id role t) l (Loops.allocate_seq db).1 db' up
        (rw (sym e) (new_reusable now id (Loops.allocate_seq db).0))
        (allocate-list (reusable lib project_id role t) db ∙ n)
        (allocate-any (has_id l.id) db
          ∙ subst (λ (x : LoopRecord). any (has_id x.id) db.loops ≡ false) e fresh)

  pub Reuses-projects :
      (now : Timestamp) (id : String) (db : Db) (l : LoopRecord) (db' : Db)
      → Reuses now id db l db'
      → db'.projects ≡ db.projects
  unfolding Loops.allocate_seq
  Reuses-projects now id db l db' (reused e f) = rw (sym f) refl
  Reuses-projects now id db l db' (made n e up) = upsert-projects l (Loops.allocate_seq db).1 db' up
