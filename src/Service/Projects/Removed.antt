-- ===== src/Service/Projects/Removed.antt =====
-- What `remove_project` of crates/looper-service/src/project_service.rs leaves in the store.
use looper_rust.Prelude.{
  String, ◌==◌, eq_refl, Bool, true, false, not, ◌&&◌, ◌||◌, ◌≡◌, refl, sym, ◌∙◌, ap, inl, inr,
  Option, none, some, List, [], ◌∷◌, any, all, keep, map, any-keep, arith, Bool-cases, Option-cases,
  if◌then◌else◌,
}
use looper_rust.Storage.Schema.{
  Timestamp, QueueItemRecord, LoopRecord, ProjectRecord, Db, is_active,
}
use looper_rust.Storage.Sql.{sql_eq}
use looper_rust.Storage.Sql.Listed.{any-order_by}
use looper_rust.Storage.WellFormed.{IsWellFormed, after-IsWellFormed}
use looper_rust.Storage.Update.{cancelled, cancel_by_project}
use looper_rust.Storage.Cancelled.{none_left, cancels, cancelled-IsSafeOn}
use looper_rust.Storage.Parents.{HasSameKeys-IsWellFormed, any-map_same}
use looper_rust.Storage.Loops
use looper_rust.Storage.Loops.{is_unfinished_of}
use looper_rust.Storage.Projects
use looper_rust.Service.Outcome.{Result, ok}
use looper_rust.Service.Projects.{
  enabled, is_enabled, the_only, has_name, resolve, is_config_managed, remove_project,
}

abbrev pub is_item_of : String → QueueItemRecord → Bool
is_item_of project_id q = sql_eq q.project_id project_id && is_active q

abbrev pub is_closed : String → ProjectRecord → Bool
is_closed id p = not (p.id == id) || p.archived

-- The project is removed: it is archived in the result and in the store, all its loops are finished,
-- and none of its queue items is active. The queue keeps its constraints.
pub record IsRemoved (p : ProjectRecord) (now : Timestamp) (r : Result ProjectRecord × Db)
    : Type 0 where
  pub result : r.0 ≡ ok (record p { archived = true; updated_at = now })
  pub archived : all (is_closed p.id) r.1.projects ≡ true
  pub finished : any (is_unfinished_of p.id) r.1.loops ≡ false
  pub idle : any (is_item_of p.id) r.1.queue_items ≡ false
  pub well_formed : IsWellFormed r.1

module _ (id : String) (now : Timestamp) where
  abbrev shut : ProjectRecord → ProjectRecord
  shut p = if p.id == id then record p { archived = true; updated_at = now } else p

  abbrev over : LoopRecord → LoopRecord
  over l = if is_unfinished_of id l then record l { status = "terminated"; updated_at = now } else l

  all-shut : (projects : List ProjectRecord) → all (is_closed id) (map shut projects) ≡ true
  all-shut [] = refl
  all-shut (p ∷ projects) = ground (arith, all-shut projects)

  over_finished : (l : LoopRecord) → is_unfinished_of id (over l) ≡ false
  over_finished l = elim (Bool-cases (is_unfinished_of id l)) [
    | inl e ↦ rw e (ground arith)
    | inr e ↦ rw e e
  ]

  none-over : (loops : List LoopRecord) → any (is_unfinished_of id) (map over loops) ≡ false
  none-over [] = refl
  none-over (l ∷ loops) = rw (over_finished l, none-over loops) refl

  shut_same : (k : String) (p : ProjectRecord) → ((shut p).id == k) ≡ (p.id == k)
  shut_same k p = ground arith

  over_same : (k : String) (l : LoopRecord) → ((over l).id == k) ≡ (l.id == k)
  over_same k l = ground arith

  -- before the queue is looked at
  abbrev closed : Db → Db
  closed db = record db { projects = map shut db.projects; loops = map over db.loops }

  closed-IsWellFormed : (db : Db) → IsWellFormed db → IsWellFormed (closed db)
  closed-IsWellFormed db w =
      HasSameKeys-IsWellFormed db (closed db)
        (record {
          items = refl;
          loop_ids = λ k. any-map_same (λ (l : LoopRecord). l.id == k) over (over_same k) db.loops;
          project_ids =
              λ k. any-map_same (λ (p : ProjectRecord). p.id == k) shut (shut_same k) db.projects;
        })
        w

  idle_item :
      (reason : Option String) (q : QueueItemRecord)
      → is_item_of id (cancelled now reason q) ≡ false
  unfolding is_active
  idle_item reason q = ground arith

get_by_id-known :
    (id : String) (projects : List ProjectRecord) (p : ProjectRecord)
    → Projects.get_by_id id projects ≡ some p
    → any (λ (x : ProjectRecord). x.id == p.id) projects ≡ true
unfolding Projects.get_by_id
get_by_id-known id [] p h = absurd (ground arith)
get_by_id-known id (x ∷ projects) p h = elim (Bool-cases (x.id == id)) [
  | inl e ↦
      (let f : some x ≡ some p = rw e at h in
        let g : x ≡ p = cc in rw (← g) (rw (eq_refl x.id) refl))
  | inr e ↦
      (let f : Projects.get_by_id id projects ≡ some p = rw e at h in
        ground (arith, get_by_id-known id projects p f))
]

enabled-some : (o : Option ProjectRecord) (p : ProjectRecord) → enabled o ≡ some p → o ≡ some p
enabled-some none p h = absurd (ground arith)
enabled-some (some x) p h = ground arith

the_only-some :
    (identifier : String) (ps : List ProjectRecord) (p : ProjectRecord)
    → the_only identifier ps ≡ ok p
    → ps ≡ p ∷ []
the_only-some identifier [] p h = absurd (ground arith)
the_only-some identifier (x ∷ []) p h = cc
the_only-some identifier (x ∷ y ∷ rest) p h = absurd (ground arith)

module _ (trim to_lowercase : String → String) where
  -- the project that an identifier names is there
  resolve-known :
      (identifier : String) (projects : List ProjectRecord) (p : ProjectRecord)
      → resolve trim to_lowercase identifier projects ≡ ok p
      → any (λ (x : ProjectRecord). x.id == p.id) projects ≡ true
  unfolding resolve Projects.list
  resolve-known identifier projects p h =
      let named = λ (x : ProjectRecord). is_enabled x && has_name trim to_lowercase identifier x in
      elim (Option-cases (enabled (Projects.get_by_id identifier projects))) [
        | inr (x, e) ↦
            (let k : ok x ≡ ok p = sym (rw (e, resolve) refl) ∙ h in
              let same : x ≡ p = cc in
              get_by_id-known identifier projects p (enabled-some _ p (e ∙ ap some same)))
        | inl e ↦ elim (Bool-cases (any (λ (x : ProjectRecord). x.id == p.id) projects)) [
          | inl found ↦ found
          | inr missing ↦
              (let rows = keep named (Projects.list projects) in
                let id = λ (x : ProjectRecord). x.id == p.id in
                let k : the_only identifier rows ≡ ok p = sym (rw (e, resolve) refl) ∙ h in
                let m : any id (Projects.list projects) ≡ false =
                  any-order_by Projects.by_name id projects ∙ missing in
                let n : any id rows ≡ false = any-keep id named (Projects.list projects) m in
                let only : any id rows ≡ true =
                  rw (the_only-some identifier rows p k) (rw (eq_refl p.id) refl) in
                absurd (ground (arith, n, only)))
        ]
      ]

module _ (trim to_lowercase : String → String) (source_of : String → Option String) where
  -- On a well-formed table the removal of a project that an identifier names, and that the
  -- configuration does not manage, succeeds: the project is archived in the result and in the store,
  -- all its loops are finished, none of its queue items is active, and the queue keeps its
  -- constraints.
  pub remove_project-IsRemoved :
      (identifier : String) (now : Timestamp) (p : ProjectRecord) (db : Db)
      → IsWellFormed db
      → (identifier == "") ≡ false
      → resolve trim to_lowercase identifier db.projects ≡ ok p
      → is_config_managed source_of p ≡ false
      → IsRemoved p now (remove_project trim to_lowercase source_of identifier now db)
  unfolding remove_project Projects.archive Loops.terminate_by_project cancel_by_project
  remove_project-IsRemoved identifier now p db w named found managed =
      let d = closed p.id now db in
      let known = resolve-known trim to_lowercase identifier db.projects p found in
      let reason : Option String = some "project archived" in
      let c = cancels (is_item_of p.id) now reason d (closed-IsWellFormed p.id now db w) in
      rw (named, found, managed, known, c)
        (record {
          result = refl;
          archived = all-shut p.id now db.projects;
          finished = none-over p.id now db.loops;
          idle = none_left (is_item_of p.id) now reason (idle_item p.id now reason) db.queue_items;
          well_formed =
              after-IsWellFormed d (is_item_of p.id) (cancelled now reason)
                (cancelled-IsSafeOn d (is_item_of p.id) now reason)
                (closed-IsWellFormed p.id now db w);
        })
