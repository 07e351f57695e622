-- ===== src/Service/Loops/Unique.antt =====
-- The schedulable loops of one target under `create` and `resume` of
-- crates/looper-service/src/loop_service.rs.
use looper_rust.Prelude.{
  ℕ, suc, ℤ, String, eq_iff, Bool, true, false, ◌≡◌, refl, sym, ◌∙◌, subst, inl, inr, none, some,
  List, [], ◌∷◌, ◌++◌, any, count, map, arith, Bool-cases, if◌then◌else◌, ◌≤◌, ◌+◌,
}
use looper_rust.Storage.Schema.{Timestamp, LoopRecord, Db}
use looper_rust.Storage.Sql.Listed.{any-order_by}
use looper_rust.Storage.Loops
use looper_rust.Storage.Loops.{find_loop, has_id, rewritten, written, by_seq, loop_ok, is_seq_taken}
use looper_rust.Storage.Loops.Table.{upsert-loops, find_loop-id}
use looper_rust.Types.LoopStatus
use looper_rust.Types.LoopStatus.{LoopStatus, queued, from_str, as_str}
use looper_rust.Types.LoopType
use looper_rust.Types.LoopTarget.{loop_target_key}
use looper_rust.Service.Loops.{
  CreateInput, create, resume, transition_status, conflicts, new_loop, moved,
  is_schedulable_status_str,
}
use looper_rust.Service.Loops.Steps.{declined, created, create-Creates, competes}
use looper_rust.Service.Loops.Halted.{IsStored}

-- the number of schedulable loops of a project, type and target
abbrev pub schedulable : String → String → String → Db → ℕ
schedulable project_id type target_key db = count (conflicts project_id type target_key) db.loops

count-none :
    (p : LoopRecord → Bool) (loops : List LoopRecord) → any p loops ≡ false → count p loops ≡ 0
count-none p [] h = refl
count-none p (l ∷ loops) h = ground (arith, count-none p loops)

count-last :
    (p : LoopRecord → Bool) (loops : List LoopRecord) (l : LoopRecord)
    → count p (loops ++ l ∷ []) ≡ count p loops + (if p l then 1 else 0)
count-last p [] l = ground arith
count-last p (x ∷ loops) l = ground (arith, count-last p loops l)

-- a new loop that a test counts is counted alone
new_counted :
    (to_string : ℤ → String) (input : CreateInput) (now : Timestamp) (id : String) (db : Db)
    (project_id type key : String)
    → competes to_string input (Loops.list db) ≡ false
    → conflicts project_id type key (new_loop to_string input now id (Loops.allocate_seq db).0)
      ≡ true
    → schedulable project_id type key db ≡ 0
unfolding Loops.list
new_counted to_string input now id db project_id type key c h =
    let p : project_id ≡ input.project_id = ground (arith, eq_iff input.project_id project_id) in
    let t : type ≡ LoopType.as_str input.type =
      ground (arith, eq_iff (LoopType.as_str input.type) type) in
    let k : key ≡ loop_target_key to_string input.target =
      ground (arith, eq_iff (loop_target_key to_string input.target) key) in
    rw (p, t, k)
      (count-none _ db.loops (
        sym (
          any-order_by by_seq
            (conflicts input.project_id (LoopType.as_str input.type)
              (loop_target_key to_string input.target))
            db.loops)
        ∙ ground arith))

-- A call of `create` with a fresh id keeps it so that a project, a type and a target have at most
-- one schedulable loop.
pub create_one_schedulable :
    (to_string : ℤ → String) (input : CreateInput) (now : Timestamp) (id : String) (db : Db)
    (project_id type key : String)
    → any (has_id id) db.loops ≡ false
    → schedulable project_id type key db ≤ 1
    → schedulable project_id type key (create to_string input now id db).1 ≤ 1
create_one_schedulable to_string input now id db project_id type key fresh h =
    let p = conflicts project_id type key in
    let l = new_loop to_string input now id (Loops.allocate_seq db).0 in
    elim (create-Creates to_string input now id db) [
      | declined e ↦ rw e h
      | created c up ↦
          (let rows =
              upsert-loops l (Loops.allocate_seq db).1 (create to_string input now id db).1 up in
            let after : (create to_string input now id db).1.loops ≡ db.loops ++ l ∷ [] =
              rows ∙ unfold Loops.allocate_seq in rw fresh refl in
            rw after (elim (Bool-cases (p l)) [
              | inl e ↦ ground (
                arith,
                count-last p db.loops l,
                new_counted to_string input now id db project_id type key c e,
              )
              | inr e ↦ ground (arith, count-last p db.loops l)
            ]))
    ]

module _ (p : LoopRecord → Bool) (l : LoopRecord)
    (h : (x : LoopRecord) → p (record l { created_at = x.created_at }) ≡ true) where
  count-rewritten : (loops : List LoopRecord) → count p loops ≤ count p (map (rewritten l) loops)
  count-rewritten [] = ground arith
  count-rewritten (x ∷ loops) = ground (arith, count-rewritten loops, h x)

  -- one more, if a row of the id was not counted
  count-rewritten_found :
      (x : LoopRecord) (loops : List LoopRecord)
      → find_loop (has_id l.id) loops ≡ some x
      → p x ≡ false
      → suc (count p loops) ≤ count p (map (rewritten l) loops)
  unfolding find_loop
  count-rewritten_found x [] e f = absurd (ground arith)
  count-rewritten_found x (y ∷ loops) e f = elim (Bool-cases (has_id l.id y)) [
    | inl g ↦
        (let first : some y ≡ some x = rw g at e in
          let same : y ≡ x = cc in
          let not_counted : p y ≡ false = rw same f in
          ground (arith, count-rewritten loops, h y, g))
    | inr g ↦ ground (arith, count-rewritten_found x loops, h y)
  ]

found_any :
    (p : LoopRecord → Bool) (loops : List LoopRecord) (l : LoopRecord)
    → find_loop p loops ≡ some l
    → any p loops ≡ true
unfolding find_loop
found_any p [] l h = absurd (ground arith)
found_any p (x ∷ loops) l h = ground (arith, found_any p loops l)

abbrev resumed : Timestamp → Timestamp → LoopRecord → LoopRecord
resumed at now l =
    moved (record { status = queued; next_run_at = some at; last_run_at = none }) now l

-- the row is rewritten
resume-loops :
    (id : String) (at now : Timestamp) (l : LoopRecord) (s : LoopStatus) (db : Db)
    → IsStored id l db
    → from_str l.status ≡ LoopStatus.ok s
    → LoopStatus.can_transition_to s queued ≡ true
    → (resume id at now db).1.loops ≡ written (resumed at now l) db.loops
unfolding resume transition_status Loops.upsert loop_ok
resume-loops id at now l s db i f g =
    let checked : loop_ok db l ≡ true = i.checked in
    let free : is_seq_taken l db.loops ≡ false = i.seq_free in
    rw (i.found, f, g, checked, free) refl

-- A loop that may be queued, and is not schedulable, is not compared with the others when it is
-- resumed: with a schedulable loop of its target, at least two are schedulable then.
pub resume_competes :
    (id : String) (at now : Timestamp) (l : LoopRecord) (s : LoopStatus) (key : String) (db : Db)
    → IsStored id l db
    → from_str l.status ≡ LoopStatus.ok s
    → LoopStatus.can_transition_to s queued ≡ true
    → is_schedulable_status_str l.status ≡ false
    → l.target_id ≡ some key
    → 1 ≤ schedulable l.project_id l.type key db
    → 2 ≤ schedulable l.project_id l.type key (resume id at now db).1
resume_competes id at now l s key db i f g shut target one =
    let p = conflicts l.project_id l.type key in
    let raw : find_loop (has_id id) db.loops ≡ some l = unfold Loops.get_by_id in i.found in
    let same_id = find_loop-id id db.loops l raw in
    let found = subst (λ k. find_loop (has_id k) db.loops ≡ some l) (sym same_id) raw in
    let not_counted : p l ≡ false = ground arith in
    let counted : (x : LoopRecord)
        → p (record (resumed at now l) { created_at = x.created_at }) ≡ true =
      λ x.
        (unfold as_str in
          rw target (
            ground
              (arith, eq_iff key key, eq_iff l.project_id l.project_id, eq_iff l.type l.type))) in
    let there : any (has_id l.id) db.loops ≡ true = found_any (has_id l.id) db.loops l found in
    let more = count-rewritten_found p (resumed at now l) counted l db.loops found not_counted in
    rw (resume-loops id at now l s db i f g, there) (omega (arith, more, one))
