-- ===== src/Service/AdmitWork/Admit.antt =====
-- `admit_work` and `create_or_reuse_loop` of crates/looper-service/src/admit_work.rs.
use looper_rust.Prelude.{
  ℤ, pos, String, ◌==◌, Bool, true, false, not, ◌&&◌, ◌||◌, Option, none, some, List, [], ◌∷◌, any,
  if◌then◌else◌,
}
use looper_rust.Storage.Schema.{Timestamp, QueueItemRecord, LoopRecord, ProjectRecord}
use looper_rust.Storage.Sql.{sql_eq}
use looper_rust.Storage.Loops
use looper_rust.Storage.Loops.{find_loop}
use looper_rust.Storage.Projects
use looper_rust.Storage.Insert.{create_or_get_active_by_dedupe}
use looper_rust.Types.LoopStatus
use looper_rust.Types.LoopStatus.{queued}
use looper_rust.Types.LoopType
use looper_rust.Types.LoopType.{LoopType, supports_target_type}
use looper_rust.Types.LoopTarget
use looper_rust.Types.LoopTarget.{LoopTarget, unwrap_or, loop_target_key}
use looper_rust.Service.Outcome.{
  Result, ok, Service, project_not_found, active_loop_conflict, cannot_target, ◌>>=◌, ◌>>◌, return,
  guard, or_fail, lift, reads, statement, writes,
}
use looper_rust.Service.Loops.{allocate_seq}
use looper_rust.Service.Library.{Library}
use looper_rust.Service.Repo.{normalize_repo_spec, resolve_project_repo}
use looper_rust.Service.AdmitWork.{
  AdmitWorkInput, AdmitWorkResult, RoleTarget, default_priority, is_active_loop_status,
  has_pr_number, parse_role, resolve_role_target,
}

module _ {Json : Type 0} (lib : Library Json) where
  abbrev pub string_in : Option Json → Option String
  string_in none = none
  string_in (some v) = lib.as_text v

  abbrev pub repo_in : Option Json → Option String
  repo_in none = none
  repo_in (some v) = string_in (lib.get "repo" v)

  -- the "repo" text of the JSON of a project
  abbrev pub metadata_repo : String → Option String
  metadata_repo raw = repo_in (lib.from_text raw)

  -- the explicit repository, or that of the project
  unfoldable pub chosen_repo : Option String → ProjectRecord → Result String
  chosen_repo none project = resolve_project_repo lib.trim metadata_repo project
  chosen_repo (some r) project =
      if lib.trim r == ""
      then resolve_project_repo lib.trim metadata_repo project
      else ok (normalize_repo_spec lib.trim (lib.trim r))

  abbrev pub has_bare_number : Option ℤ → LoopRecord → Bool
  has_bare_number none l = false
  has_bare_number (some n) l = sql_eq l.target_id (lib.to_string n)

  unfoldable pub loop_matches_target : LoopRecord → String → Option ℤ → LoopTarget → Bool
  loop_matches_target l target_key pr_number target =
      sql_eq l.target_id target_key
      || (has_pr_number pr_number l || has_bare_number target.number l)

  abbrev pub marked : String → Json → Json
  marked repo v =
      lib.insert "repo" (lib.string repo) (lib.insert "admitted_via" (lib.string "admit_work") v)

  abbrev pub metadata_text : Option Json → String → String
  metadata_text none repo = lib.to_text (marked repo lib.empty)
  metadata_text (some v) repo = lib.to_text (if lib.is_object v then marked repo v else v)

  abbrev pub with_number : String → Option ℤ → Json → Json
  with_number k none v = v
  with_number k (some n) v = lib.insert k (lib.number n) v

  abbrev pub with_entries : List (String × Json) → Json → Json
  with_entries [] v = v
  with_entries ((k, x) ∷ rest) v = with_entries rest (lib.or_insert k x v)

  abbrev pub with_metadata : Option Json → Json → Json
  with_metadata none v = v
  with_metadata (some x) v =
      if lib.is_object x then with_entries (lib.entries x) v else lib.insert "metadata" x v

  unfoldable pub build_payload : LoopType → Option ℤ → Option ℤ → Option Json → Json
  build_payload role pr_number issue_number metadata =
      let head =
        lib.insert "role" (lib.string (LoopType.as_str role))
          (lib.insert "admitted_via" (lib.string "admit_work") lib.empty) in
      with_metadata metadata
        (with_number "issue_number" issue_number (with_number "pr_number" pr_number head))

  abbrev pub reusable : String → LoopType → RoleTarget → LoopRecord → Bool
  reusable project_id role t l =
      l.project_id == project_id
      && (l.type == LoopType.as_str role
          && (is_active_loop_status l.status
              && loop_matches_target l (loop_target_key lib.to_string t.loop_target) t.pr_number
                  t.loop_target))

  abbrev pub conflicting : String → LoopType → RoleTarget → LoopRecord → Bool
  conflicting project_id role t l =
      l.project_id == project_id
      && (l.type == LoopType.as_str role
          && (sql_eq l.target_id (loop_target_key lib.to_string t.loop_target)
              && is_active_loop_status l.status))

  abbrev pub admitted_loop :
      String → LoopType → RoleTarget → String → Option Json → Timestamp → String → ℤ → LoopRecord
  admitted_loop project_id role t repo metadata now id seq = record {
    id = id;
    seq = seq;
    project_id = project_id;
    type = LoopType.as_str role;
    target_type = LoopTarget.as_str t.loop_target.target_type;
    target_id = some (loop_target_key lib.to_string t.loop_target);
    repo = some repo;
    pr_number = t.pr_number;
    status = LoopStatus.as_str queued;
    config_json = none;
    metadata_json = some (metadata_text metadata repo);
    last_run_at = none;
    next_run_at = some now;
    created_at = now;
    updated_at = now;
  }

  -- the new loop, where there is none to reuse
  unfoldable pub create_loop :
      String
      → LoopType
      → RoleTarget
      → String
      → Option Json
      → Timestamp
      → String
      → Service (LoopRecord × Bool)
  create_loop project_id role t repo metadata now id = do
    all_loops ← reads Loops.list
    guard (not (any (conflicting project_id role t) all_loops)) (
        active_loop_conflict project_id (LoopType.as_str role)
          (loop_target_key lib.to_string t.loop_target))
    guard (supports_target_type role t.loop_target.target_type)
        (cannot_target role t.loop_target.target_type)
    seq ← allocate_seq
    writes (Loops.upsert (admitted_loop project_id role t repo metadata now id seq))
    return (admitted_loop project_id role t repo metadata now id seq, true)

  unfoldable pub create_or_reuse_loop :
      String
      → LoopType
      → RoleTarget
      → String
      → Option Json
      → Timestamp
      → String
      → Service (LoopRecord × Bool)
  create_or_reuse_loop project_id role t repo metadata now id db =
      elim (find_loop (reusable project_id role t) (Loops.list db)) [
        | some existing ↦ return (existing, false) db
        | none ↦ create_loop project_id role t repo metadata now id db
      ]

  abbrev pub candidate :
      AdmitWorkInput Json
      → LoopType
      → String
      → RoleTarget
      → String
      → Timestamp
      → String
      → QueueItemRecord
  candidate input role repo t loop_id now id = record {
    id = id;
    project_id = some input.project_id;
    loop_id = some loop_id;
    type = LoopType.as_str role;
    target_type = t.queue_target_type;
    target_id = t.queue_target_id;
    repo = some repo;
    pr_number = t.pr_number;
    dedupe_key = t.dedupe_key;
    priority = unwrap_or (default_priority role) input.priority;
    status = "queued";
    available_at = now;
    attempts = pos 0;
    max_attempts = pos 3;
    claimed_by = none;
    claimed_at = none;
    started_at = none;
    finished_at = none;
    lock_key = some t.dedupe_key;
    payload_json =
        some (lib.to_text (build_payload role t.pr_number input.issue_number input.metadata));
    last_error = none;
    last_error_kind = none;
    created_at = now;
    updated_at = now;
  }

  unfoldable pub admit_work :
      AdmitWorkInput Json → Timestamp → String → String → Service AdmitWorkResult
  admit_work input now loop_id item_id = do
    role ← lift (parse_role lib input.role)
    projects ← reads (λ db. db.projects)
    project ←
        or_fail (Projects.get_by_id input.project_id projects) (project_not_found input.project_id)
    repo ← lift (chosen_repo input.repo project)
    t ← lift (resolve_role_target lib role input.project_id repo input.issue_number input.pr_number)
    made ← create_or_reuse_loop input.project_id role t repo input.metadata now loop_id
    item ←
        statement
          (create_or_get_active_by_dedupe (candidate input role repo t made.0.id now item_id))
    return (record { loop_record = made.0; queue_item = item.0; created_new_loop = made.1 })
