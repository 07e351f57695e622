-- ===== src/Tests/Claims.antt =====
-- Claim runs of the scheduler.
use looper_rust.Prelude.{◌≤◌, true, arith}
use looper_rust.Storage.Queue.{count_by_status}
use looper_rust.Scheduler.Claim.{HandlerMap, claim_and_run, execute_claim_pass}
use looper_rust.Scheduler.Claim.Bound.{IsWithin, claim_and_run-IsWithin, execute_claim_pass-bound}
use looper_rust.Tests.Samples.{sample, sample-IsWellFormed}

abbrev pub handlers : HandlerMap
handlers = record {
  planner_set = true;
  coordinator_set = true;
  reviewer_set = true;
  fixer_set = true;
  worker_set = true;
  snapshot_set = true;
}

claim_and_run-IsWithin_example :
    IsWithin 2 sample
      (claim_and_run handlers 20 2 sample).queue_items
      (claim_and_run handlers 20 2 sample).db
claim_and_run-IsWithin_example = claim_and_run-IsWithin handlers 20 2 sample sample-IsWellFormed

execute_claim_pass-bound_example :
    count_by_status (execute_claim_pass handlers 1 20 sample).db "running" ≤ 1
unfolding count_by_status
execute_claim_pass-bound_example =
    execute_claim_pass-bound handlers 20 1 sample sample-IsWellFormed (omega arith)
