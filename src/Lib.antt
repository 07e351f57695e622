-- ===== src/Lib.antt =====
-- Verification library of looper, a daemon that runs agents on the issues and pull requests of
-- GitHub repositories. The development models the parts that decide what runs and when.
--
-- - Storage: the SQLite store (crates/looper-storage). Storage/Schema has the rows and the
--   constraints of the migrations, Storage/Sql the statement forms, Storage/Queue the reads and
--   claims of src/repos/queue.rs, Storage/Reads its lists, Storage/Update its updates,
--   Storage/Insert its insertions and Storage/Ops what they leave, Storage/Locks the leases of
--   src/repos/locks.rs, Storage/Runs the runs of src/repos/runs.rs with their executions,
--   Storage/Loops the loops of src/repos/loops.rs, and Storage/Projects the projects of
--   src/repos/projects.rs with what the deletion of one takes along. A table is the
--   list of its rows; a repository method is a function on the database that returns the new
--   database, or an error and no change. A text of a timestamp is its rank in the order in which
--   SQLite compares texts. An i64 is an integer (Prelude/Int). SQLite itself is not modelled:
--   errors of input and output do not occur, and among rows that tie in an ORDER BY the first of
--   the table is taken.
-- - Scheduler: claims and dispatch (crates/looper-scheduler). Scheduler/Claim has src/claim.rs and
--   the claim phases of src/scheduler.rs and src/tick.rs; the queue of Storage is its client
--   interface, and the handlers of other crates are flags that say whether they are configured.
--   The claims run under the mutex of the scheduler, so they are modelled one after the other.
--   Scheduler/Tick has the tick of src/tick.rs; what the handlers discover, and how they change the
--   store, is a parameter, and its middleware writes tables that are not modelled.
--   Scheduler/Failure has src/failure.rs; `to_lowercase` is a parameter, and the arithmetic of the
--   delays is that of u64 in a release build. Scheduler/Recovery has the phases of src/recovery.rs,
--   and Scheduler/Reconcile its reconciliation of stale runs, over the tables of Storage/Runs; the
--   cancellation of the context by another thread is a function from polls to answers.
-- - Types: the state machines of loops and runs (crates/looper-types), function by function, the
--   kinds of failures with their resume policies (Types/Resume), and the types and targets of
--   loops (Types/LoopType, Types/LoopTarget).
-- - Service: the services over the store (crates/looper-service). A service is a function on the
--   database that returns a result or an error, and the database with what was written before it
--   (Service/Outcome). Service/Loops has src/loop_service.rs, Service/AdmitWork has
--   src/admit_work.rs, and Service/Projects and Service/Repo have the list, the removal and the
--   repository of a project of src/project_service.rs. The time of a call and the ids that it
--   draws are arguments; serde_json and the functions on texts are parameters (Service/Library).
-- - Runner: the decisions of the runners (crates/looper-runner). Runner/Depgraph has the graph of
--   src/depgraph.rs, and Runner/Depgraph/Cycles its search for cycles; a hash map is the list of
--   its entries in the order of iteration. Runner/Completion has src/completion.rs, a client of
--   Storage that gives slots back to the scheduler, Runner/FixerHandoff has src/fixer_handoff.rs,
--   a client of Storage in the manner of Service, and Runner/MergeWatch has src/merge_watch.rs.
--   `trim`, `to_lowercase`, the texts of numbers and the text of a JSON object are parameters.
-- - Net: which node may take a pull request (crates/looper-net). Net/Policy has src/policy.rs and
--   the labels of src/types.rs. The text of a reason is the branch that gives it.
-- - Infra: the circuit breaker and the plan of the worktree cleanup (crates/looper-infra).
--   Infra/Breaker has src/circuit_breaker.rs, and Infra/WorktreeCleanup has
--   src/worktree_cleanup/plan.rs over the lists of Storage (Storage/Worktrees has those of
--   src/repos/worktrees.rs). The clock, and the reading of a text as an instant, are arguments.
-- - Git: the safety checks of src/safety.rs (crates/looper-git), in Git/Safety; the canonical path
--   of a text is a parameter, since the file system gives it.
--
-- The loops of the claims have as many rounds as there are slots, so no fuel is needed. The search
-- for cycles has as much fuel as there are tracked issues and targets of edges: each nested call
-- marks one of them, so the fuel never runs out. A text is split with as much fuel as it is long:
-- each part is followed by a separator (Service/Repo).
-- Not modelled: the runners that talk to agents and to GitHub, the HTTP interface, the command
-- line, the configuration, the network server and the dashboard.
pub mod Prelude
pub mod Net
pub mod Runner
pub mod Storage
pub mod Scheduler
pub mod Types
pub mod Service
pub mod Git
pub mod Infra
mod Tests
