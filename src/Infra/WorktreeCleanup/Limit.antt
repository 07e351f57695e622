-- ===== src/Infra/WorktreeCleanup/Limit.antt =====
-- The limit of a tick in `plan` of crates/looper-infra/src/worktree_cleanup/plan.rs.
use looper_rust.Prelude.{
  ℕ, ◌+◌, ◌≤◌, ◌==◌, Bool, true, false, ◌≡◌, refl, ◌⊎◌, inl, inr, Option, List, [], ◌∷◌, count,
  arith, Bool-cases, if◌then◌else◌,
}
use looper_rust.Storage.Schema.{Timestamp, QueueItemRecord, LoopRecord}
use looper_rust.Storage.Runs.{RunRecord, Repositories}
use looper_rust.Storage.Loops
use looper_rust.Storage.Reads
use looper_rust.Storage.Worktrees.{WorktreeRecord}
use looper_rust.Infra.WorktreeCleanup.{
  Summary, DecisionAction, would_clean, skipped, Decision, CleanupOptions,
}
use looper_rust.Infra.WorktreeCleanup.Plan.{
  scan, decide, step, with_decision, plan_worktrees, plan, in_question, no_summary, runs_of_loops,
}
use looper_rust.Infra.WorktreeCleanup.Spared.{verdict-clean}

abbrev pub is_clean : DecisionAction → Bool
is_clean would_clean = true
is_clean skipped = false

abbrev pub is_cleaned : Decision → Bool
is_cleaned d = is_clean d.action

Action-cases : (a : DecisionAction) → (a ≡ would_clean) ⊎ (a ≡ skipped)
Action-cases would_clean = inl refl
Action-cases skipped = inr refl

module _ (instant : Timestamp → Option ℕ) (loops : List LoopRecord) (runs : List RunRecord)
    (queue_items : List QueueItemRecord) (options : CleanupOptions) where
  abbrev cleans : WorktreeRecord → Summary → ℕ
  cleans wt s =
      if wt.status == "cleaned"
      then 0
      else if is_clean (decide instant loops runs queue_items options wt s.would_clean).action
      then 1
      else 0

  step-counts :
      (wt : WorktreeRecord) (s : Summary)
      → (step instant loops runs queue_items options wt s).would_clean ≡ s.would_clean + cleans wt s
  step-counts wt s = elim (Bool-cases (wt.status == "cleaned")) [
    | inl e ↦ rw e (omega arith)
    | inr e ↦
        elim (Action-cases
          (decide instant loops runs queue_items options wt s.would_clean).action) [
            | inl a ↦ rw (e, a) (omega arith)
            | inr a ↦ rw (e, a) (omega arith)
          ]
  ]

  decision-counts :
      (wt : WorktreeRecord) (s : Summary) (rest : List Decision)
      → count is_cleaned (with_decision instant loops runs queue_items options wt s rest)
        ≡ cleans wt s + count is_cleaned rest
  decision-counts wt s rest = elim (Bool-cases (wt.status == "cleaned")) [
    | inl e ↦ rw e (omega arith)
    | inr e ↦
        elim (Action-cases
          (decide instant loops runs queue_items options wt s.would_clean).action) [
            | inl a ↦ rw (e, a) (omega arith)
            | inr a ↦ rw (e, a) (omega arith)
          ]
  ]

  cleans-bound :
      (wt : WorktreeRecord) (s : Summary)
      → s.would_clean ≤ options.max_per_tick
      → s.would_clean + cleans wt s ≤ options.max_per_tick
  cleans-bound wt s h = elim (Bool-cases (wt.status == "cleaned")) [
    | inl e ↦ rw e (omega arith)
    | inr e ↦
        elim (Action-cases
          (decide instant loops runs queue_items options wt s.would_clean).action) [
            | inl a ↦
                (let (b, c, m) =
                    verdict-clean options s.would_clean
                      (scan instant loops runs queue_items options wt) a in
                  rw (e, a) (omega (arith, m)))
            | inr a ↦ rw (e, a) (omega arith)
          ]
  ]

  -- the summary counts the worktrees that would be cleaned, which are no more than the limit
  cleaned-bound :
      (ws : List WorktreeRecord) (s : Summary)
      → s.would_clean ≤ options.max_per_tick
      → ((plan_worktrees instant loops runs queue_items options ws s).0.would_clean
          ≡ count is_cleaned (plan_worktrees instant loops runs queue_items options ws s).1
            + s.would_clean)
        × ((plan_worktrees instant loops runs queue_items options ws s).0.would_clean
            ≤ options.max_per_tick)
  unfolding plan_worktrees
  cleaned-bound [] s h = (omega arith, h)
  cleaned-bound (wt ∷ ws) s h =
      let next = step instant loops runs queue_items options wt s in
      let k = step-counts wt s in
      let small : next.would_clean ≤ options.max_per_tick =
        rw (step-counts wt s) (cleans-bound wt s h) in
      let (e, b) = cleaned-bound ws next small in
      (
        rw (decision-counts wt s (plan_worktrees instant loops runs queue_items options ws next).1)
            (omega (arith, e, k)),
        b,
      )

-- A plan would clean no more worktrees than the limit of a tick, and its summary counts them.
pub plan-bound :
    (instant : Timestamp → Option ℕ) (options : CleanupOptions) (worktrees : List WorktreeRecord)
    (s : Repositories)
    → ((plan instant options worktrees s).0.would_clean
        ≡ count is_cleaned (plan instant options worktrees s).1)
      × ((plan instant options worktrees s).0.would_clean ≤ options.max_per_tick)
unfolding plan
plan-bound instant options worktrees s =
    let (e, h) =
      cleaned-bound instant (Loops.list s.db) (runs_of_loops s) (Reads.list s.db) options
        (in_question worktrees) no_summary (omega arith) in
    (omega (arith, e), h)
