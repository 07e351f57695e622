-- ===== src/Tests/Admissions.antt =====
-- Work that is admitted twice.
use looper_rust.Prelude.{
  ℤ, pos, eqb_ℤ, String, Bool, true, false, ◌≡◌, refl, Option, none, some, List, [], ◌∷◌, concat,
  if◌then◌else◌,
}
use looper_rust.Storage.Schema.{Db, LoopRecord, QueueItemRecord}
use looper_rust.Types.LoopType.{worker, fixer}
use looper_rust.Service.Outcome.{ok}
use looper_rust.Service.Library.{Library}
use looper_rust.Service.AdmitWork.{AdmitWorkInput, AdmitWorkResult, of_issue}
use looper_rust.Service.AdmitWork.Admit.{admit_work, admitted_loop, candidate}
use looper_rust.Service.AdmitWork.Twice.{admit_work_twice}
use looper_rust.Runner.FixerHandoff.{
  FixerEnqueueResult, ensure_fixer_queue_item, fixer_item, fixer_dedupe_key, fixer_loop,
  fixer_loop_id, new_fixer_loop,
}
use looper_rust.Runner.FixerHandoff.Deduped.{ensure_twice}
use looper_rust.Tests.Samples.{idle_db, project}

abbrev digit : ℤ → String
digit n = if eqb_ℤ n (pos 7) then "7" else "0"

-- a JSON value is its text
abbrev texts : Library String
texts = record {
  trim = λ s. s;
  to_string = digit;
  string = λ s. s;
  number = digit;
  is_object = λ s. false;
  empty = "";
  insert = λ k x v. concat v (concat k x);
  or_insert = λ k x v. v;
  entries = λ s. [];
  to_text = λ s. s;
  from_text = some;
  get = λ k v. none;
  as_text = some;
}

abbrev with_project : Db
with_project = record idle_db { projects = project ∷ [] }

abbrev request : AdmitWorkInput String
request = record {
  project_id = "p1";
  role = "worker";
  issue_number = some (pos 7);
  pr_number = none;
  repo = some "acme/looper";
  priority = none;
  metadata = none;
}

abbrev first : AdmitWorkResult
first =
    let l =
      admitted_loop texts "p1" worker (of_issue texts worker "p1" "acme/looper" (pos 7))
        "acme/looper" none 10 "l9" (pos 1) in
    record {
      loop_record = l;
      queue_item =
          candidate texts request worker "acme/looper"
            (of_issue texts worker "p1" "acme/looper" (pos 7)) "l9" 10 "q9";
      created_new_loop = true;
    }

abbrev admitted : Db
admitted = record with_project {
  queue_items = first.queue_item ∷ [];
  loops = first.loop_record ∷ [];
  loop_seq = 1;
}

admit_first : admit_work texts request 10 "l9" "q9" with_project ≡ (ok first, admitted)
unfolding admit_work looper_rust.Service.AdmitWork.parse_role looper_rust.Types.LoopType.from_str
    looper_rust.Types.LoopType.as_str looper_rust.Types.LoopStatus.as_str
    looper_rust.Types.LoopTarget.as_str looper_rust.Types.LoopTarget.loop_target_key
    looper_rust.Types.LoopType.supports_target_type looper_rust.Types.LoopType.allowed_target_types
    looper_rust.Storage.Projects.get_by_id looper_rust.Service.AdmitWork.Admit.chosen_repo
    looper_rust.Service.AdmitWork.resolve_role_target looper_rust.Service.AdmitWork.require_positive
    looper_rust.Service.AdmitWork.default_priority
    looper_rust.Service.AdmitWork.is_active_loop_status
    looper_rust.Service.AdmitWork.Admit.create_or_reuse_loop
    looper_rust.Service.AdmitWork.Admit.create_loop
    looper_rust.Service.AdmitWork.Admit.loop_matches_target
    looper_rust.Service.AdmitWork.Admit.build_payload looper_rust.Service.Repo.normalize_repo_spec
    looper_rust.Service.Repo.split_up_to looper_rust.Prelude.strip_prefix
    looper_rust.Storage.Loops.find_loop looper_rust.Storage.Loops.list
    looper_rust.Storage.Sql.order_by looper_rust.Storage.Sql.insert_ordered
    looper_rust.Storage.Loops.upsert looper_rust.Storage.Loops.loop_ok
    looper_rust.Storage.Loops.allocate_seq looper_rust.Storage.Insert.create_or_get_active_by_dedupe
    looper_rust.Storage.Insert.insert_row looper_rust.Storage.Queue.find_active_by_dedupe
    looper_rust.Storage.Queue.find_by looper_rust.Storage.Queue.get_by_id
    looper_rust.Storage.Schema.index_clash looper_rust.Storage.Schema.is_active
    looper_rust.Storage.Schema.is_indexed looper_rust.Storage.Schema.row_ok
admit_first = refl

admit_work_twice_example :
    admit_work texts request 12 "l10" "q10" admitted
    ≡ (ok (record first { created_new_loop = false }), admitted)
admit_work_twice_example =
    admit_work_twice texts request 10 12 "l9" "l10" "q9" "q10" with_project admitted first refl
      admit_first

abbrev handed_over : FixerEnqueueResult
handed_over = record {
  queue_item = fixer_item digit (λ fields. "{}") "p1" none (pos 7) "criteria_issues" 10 "l9" "q9";
  is_new = true;
  loop_id = "l9";
  dedupe_key = fixer_dedupe_key digit "p1" (pos 7);
}

abbrev handed : Db
handed = record with_project {
  queue_items = handed_over.queue_item ∷ [];
  loops =
      fixer_loop digit (λ fields. "{}") "p1" none (pos 7) "criteria_issues" 10 "l9" (pos 1) ∷ [];
  loop_seq = 1;
}

hand_over_first :
    ensure_fixer_queue_item digit
      (λ fields. "{}")
      "p1"
      none
      (pos 7)
      "criteria_issues"
      10
      "l9"
      "q9"
      with_project
    ≡ (ok handed_over, handed)
unfolding ensure_fixer_queue_item fixer_dedupe_key fixer_loop_id new_fixer_loop
    looper_rust.Storage.Loops.find_loop looper_rust.Storage.Loops.list
    looper_rust.Storage.Sql.order_by looper_rust.Storage.Sql.insert_ordered
    looper_rust.Storage.Loops.upsert looper_rust.Storage.Loops.loop_ok
    looper_rust.Storage.Loops.allocate_seq looper_rust.Storage.Insert.create_or_get_active_by_dedupe
    looper_rust.Storage.Insert.insert_row looper_rust.Storage.Queue.find_active_by_dedupe
    looper_rust.Storage.Queue.find_by looper_rust.Storage.Queue.get_by_id
    looper_rust.Storage.Schema.index_clash looper_rust.Storage.Schema.is_active
    looper_rust.Storage.Schema.is_indexed looper_rust.Storage.Schema.row_ok
hand_over_first = refl

ensure_twice_example :
    ensure_fixer_queue_item digit
      (λ fields. "{}")
      "p1"
      none
      (pos 7)
      "changes_requested"
      12
      "l10"
      "q10"
      handed
    ≡ (ok (record handed_over { is_new = false }), handed)
ensure_twice_example =
    ensure_twice digit (λ fields. "{}") "p1" (pos 7) none none "criteria_issues" "changes_requested"
      10 12 "l9" "l10" "q9" "q10" with_project handed handed_over refl hand_over_first
