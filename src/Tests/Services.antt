-- ===== src/Tests/Services.antt =====
-- A store with a project and its loops, and the calls of the services.
use looper_rust.Prelude.{
  ℤ, pos, eqb_ℤ, String, refl, inl, eq_iff, Option, none, some, List, [], ◌∷◌, ◌≤◌, arith,
  if◌then◌else◌,
}
use looper_rust.Storage.Schema.{Db, LoopRecord, row_ok, ids_ok, index_ok}
use looper_rust.Storage.WellFormed.{IsWellFormed}
use looper_rust.Storage.Loops
use looper_rust.Storage.Loops.{find_loop, loop_ok}
use looper_rust.Types.LoopStatus.{
  completed, paused, running, failed, queued, from_str, as_str, can_transition_to,
}
use looper_rust.Types.LoopType.{worker}
use looper_rust.Types.LoopTarget.{LoopTarget, issue}
use looper_rust.Service.Loops.{CreateInput, PauseInput, create, pause, resume}
use looper_rust.Service.Loops.Calls.{LoopCall, creates, pauses, resumes, perform_all}
use looper_rust.Service.Loops.Sinks.{HasStatus, sink_stays_in_store}
use looper_rust.Service.Loops.Halted.{IsStored, Halts, pause-Halts}
use looper_rust.Service.Loops.Unique.{schedulable, create_one_schedulable, resume_competes}
use looper_rust.Service.Projects.{resolve, remove_project}
use looper_rust.Service.Projects.Removed.{IsRemoved, remove_project-IsRemoved}
use looper_rust.Storage.Projects
use looper_rust.Tests.Samples.{sample, worker_item, worker_loop, project}

abbrev digit : ℤ → String
digit n = if eqb_ℤ n (pos 7) then "7" else "0"

abbrev as_is : String → String
as_is s = s

abbrev no_source : String → Option String
no_source s = none

abbrev busy : Db
busy = record sample {
  queue_items = record worker_item { loop_id = some "l1"; project_id = some "p1" } ∷ [];
  loops = worker_loop ∷ [];
  projects = project ∷ [];
  loop_seq = 1;
}

busy-IsWellFormed : IsWellFormed busy
unfolding row_ok ids_ok index_ok
busy-IsWellFormed = record { rows_hold = refl; ids_differ = refl; index_holds = refl }

abbrev over : Db
over = record busy { loops = record worker_loop { status = "completed" } ∷ [] }

abbrev issue_7 : LoopTarget
issue_7 = record {
  target_type = issue;
  project_id = none;
  repo = some "acme/looper";
  number = some (pos 7);
}

abbrev new_worker : CreateInput
new_worker = record {
  project_id = "p1";
  type = worker;
  target = issue_7;
  status = queued;
  config_json = none;
  metadata_json = none;
}

abbrev halt_l1 : PauseInput
halt_l1 = record { loop_id = "l1"; reason = some "by hand" }

abbrev calls : List LoopCall
calls = pauses halt_l1 8 ∷ creates new_worker 9 "l2" ∷ resumes "l1" 10 11 ∷ []

sink_stays_in_store_example : HasStatus "l1" completed (perform_all digit calls over)
unfolding Loops.get_by_id find_loop as_str
sink_stays_in_store_example =
    sink_stays_in_store digit "l1" completed (inl refl) calls over
      (tt, ((λ e. absurd (ground (arith, eq_iff "l1" "l2"))), (tt, tt)))
      (record worker_loop { status = "completed" }, refl, refl)

l1-IsStored : IsStored "l1" worker_loop busy
unfolding Loops.get_by_id find_loop loop_ok
l1-IsStored = record { found = refl; checked = refl; seq_free = refl }

pause-Halts_example : Halts "l1" paused halt_l1 8 worker_loop busy (pause halt_l1 8 busy)
unfolding from_str can_transition_to as_str
pause-Halts_example =
    pause-Halts halt_l1 8 worker_loop running busy busy-IsWellFormed l1-IsStored refl refl

create_one_schedulable_example :
    schedulable "p1" "worker" "issue:acme/looper#7" (create digit new_worker 9 "l2" over).1 ≤ 1
create_one_schedulable_example =
    create_one_schedulable digit new_worker 9 "l2" over "p1" "worker" "issue:acme/looper#7" refl
      (omega arith)

abbrev broken_loop : LoopRecord
broken_loop = record worker_loop { id = "l2"; seq = pos 2; status = "failed" }

abbrev rivals : Db
rivals = record busy { loops = worker_loop ∷ broken_loop ∷ [] }

l2-IsStored : IsStored "l2" broken_loop rivals
unfolding Loops.get_by_id find_loop loop_ok
l2-IsStored = record { found = refl; checked = refl; seq_free = refl }

resume_competes_example :
    2 ≤ schedulable "p1" "worker" "issue:acme/looper#7" (resume "l2" 10 11 rivals).1
unfolding from_str can_transition_to
resume_competes_example =
    resume_competes "l2" 10 11 broken_loop failed "issue:acme/looper#7" rivals l2-IsStored refl refl
      refl refl (omega arith)

remove_project-IsRemoved_example :
    IsRemoved project 9 (remove_project as_is as_is no_source "p1" 9 busy)
unfolding resolve Projects.get_by_id
remove_project-IsRemoved_example =
    remove_project-IsRemoved as_is as_is no_source "p1" 9 project busy busy-IsWellFormed refl refl
      refl
