-- ===== src/Infra/WorktreeCleanup/Spared.antt =====
-- The worktrees that `plan` of crates/looper-infra/src/worktree_cleanup/plan.rs would clean.
use looper_rust.Prelude.{
  ℕ, ◌<◌, ◌==◌, Bool, false, not, ◌&&◌, ◌||◌, ◌≡◌, refl, sym, ◌∙◌, ap, subst, ◌⊎◌, inl, inr, Option,
  List, [], ◌∷◌, any, Memᴰ, Memᴰ-nil, leb, arith, Bool-cases,
}
use looper_rust.Storage.Schema.{Timestamp, QueueItemRecord, LoopRecord, is_active}
use looper_rust.Storage.Runs.{RunRecord, Repositories}
use looper_rust.Storage.Loops
use looper_rust.Storage.Reads
use looper_rust.Storage.Worktrees.{WorktreeRecord}
use looper_rust.Infra.WorktreeCleanup.{
  Summary, would_clean, skipped, Decision, CleanupOptions, Scan, scan_loop, scan_run,
  scan_queue_item, is_protected_loop_status, worktree_matches_loop, worktree_matches_run,
  worktree_matches_queue,
}
use looper_rust.Infra.WorktreeCleanup.Used.{observed, is_used_by_loop, is_used_by_run, scan_recent}
use looper_rust.Infra.WorktreeCleanup.Plan.{
  verdict, scan, decide, step, with_decision, plan_worktrees, plan, in_question, no_summary,
  runs_of_loops, is_recent,
}

abbrev pub is_needed_by_loop : WorktreeRecord → LoopRecord → Bool
is_needed_by_loop wt l = worktree_matches_loop wt l && is_protected_loop_status l.status

abbrev pub is_needed_by_run : WorktreeRecord → RunRecord → Bool
is_needed_by_run wt r = worktree_matches_run wt r && r.status == "running"

abbrev pub is_needed_by_item : WorktreeRecord → QueueItemRecord → Bool
is_needed_by_item wt q = is_active q && worktree_matches_queue wt q

module _ (instant : Timestamp → Option ℕ) (wt : WorktreeRecord) where
  loop_blocks :
      (l : LoopRecord) (s : Scan)
      → (scan_loop instant wt l s).blocked ≡ (is_needed_by_loop wt l || s.blocked)
  unfolding scan_loop
  loop_blocks l s = elim (Bool-cases (worktree_matches_loop wt l)) [
    | inl e ↦ rw e refl
    | inr e ↦ rw e refl
  ]

  run_blocks :
      (r : RunRecord) (s : Scan)
      → (scan_run instant wt r s).blocked ≡ (is_needed_by_run wt r || s.blocked)
  unfolding scan_run
  run_blocks r s = elim (Bool-cases (worktree_matches_run wt r)) [
    | inl e ↦ rw e refl
    | inr e ↦ rw e refl
  ]

  item_blocks :
      (q : QueueItemRecord) (s : Scan)
      → (scan_queue_item instant wt q s).blocked ≡ (is_needed_by_item wt q || s.blocked)
  unfolding scan_queue_item
  item_blocks q s = elim (Bool-cases (is_active q && worktree_matches_queue wt q)) [
    | inl e ↦ rw e refl
    | inr e ↦ rw e refl
  ]

not_clean : ¬ (skipped ≡ would_clean)
not_clean h = cc

pub verdict-clean :
    (options : CleanupOptions) (n : ℕ) (s : Scan)
    → (verdict options n s).0 ≡ would_clean
    → (s.blocked ≡ false)
      × (is_recent options.retention_cutoff s.last_used_at ≡ false)
      × (n < options.max_per_tick)
unfolding verdict
verdict-clean options n s h = elim (Bool-cases (s.orphan && not options.include_orphans)) [
  | inl a ↦ absurd (not_clean (rw a at h))
  | inr a ↦ elim (Bool-cases s.blocked) [
    | inl b ↦ absurd (not_clean (rw (a, b) at h))
    | inr b ↦ elim (Bool-cases (is_recent options.retention_cutoff s.last_used_at)) [
      | inl c ↦ absurd (not_clean (rw (a, b, c) at h))
      | inr c ↦ elim (Bool-cases (leb options.max_per_tick n)) [
        | inl d ↦ absurd (not_clean (rw (a, b, c, d) at h))
        | inr d ↦ (b, c, ground arith)
      ]
    ]
  ]
]

-- What keeps no worktree that would be cleaned: no loop of its project that may still run mentions
-- it, no running one of the latest runs and no active queue item does; and no loop or run that
-- mentions it has an instant after the cutoff.
pub record IsSpare (instant : Timestamp → Option ℕ) (options : CleanupOptions)
    (loops : List LoopRecord) (runs : List RunRecord) (queue_items : List QueueItemRecord)
    (d : Decision) : Type 0 where
  pub no_loop : any (is_needed_by_loop d.worktree) loops ≡ false
  pub no_run : any (is_needed_by_run d.worktree) runs ≡ false
  pub no_item : any (is_needed_by_item d.worktree) queue_items ≡ false
  pub no_use_by_loop :
      any (is_used_by_loop instant options.retention_cutoff d.worktree) loops ≡ false
  pub no_use_by_run : any (is_used_by_run instant options.retention_cutoff d.worktree) runs ≡ false

mem_cases : (d x : Decision) (rest : List Decision) → Memᴰ d (x ∷ rest) → (d ≡ x) ⊎ Memᴰ d rest
mem_cases d x rest (Memᴰ.head e) = inl e
mem_cases d x rest (Memᴰ.tail m) = inr m

module _ (instant : Timestamp → Option ℕ) (loops : List LoopRecord) (runs : List RunRecord)
    (queue_items : List QueueItemRecord) (options : CleanupOptions) where
  scan_blocked :
      (wt : WorktreeRecord)
      → (scan instant loops runs queue_items options wt).blocked ≡ (
          any (is_needed_by_item wt) queue_items
          || (any (is_needed_by_run wt) runs || (any (is_needed_by_loop wt) loops || false)))
  unfolding scan
  scan_blocked wt =
      observed (λ s. s.blocked) (scan_queue_item instant wt) (is_needed_by_item wt)
        (item_blocks instant wt) queue_items _
      ∙ rw
          (observed (λ s. s.blocked) (scan_run instant wt) (is_needed_by_run wt)
            (run_blocks instant wt) runs _)
          (rw
            (observed (λ s. s.blocked) (scan_loop instant wt) (is_needed_by_loop wt)
              (loop_blocks instant wt) loops _)
            refl)

  decide-IsSpare :
      (wt : WorktreeRecord) (n : ℕ)
      → (decide instant loops runs queue_items options wt n).action ≡ would_clean
      → IsSpare instant options loops runs queue_items
          (decide instant loops runs queue_items options wt n)
  decide-IsSpare wt n h =
      let (b, c, m) = verdict-clean options n (scan instant loops runs queue_items options wt) h in
      let e = scan_blocked wt in
      let u = scan_recent instant loops runs queue_items options options.retention_cutoff wt in
      record {
        no_loop = ground (arith, b, e);
        no_run = ground (arith, b, e);
        no_item = ground (arith, b, e);
        no_use_by_loop = ground (arith, c, u);
        no_use_by_run = ground (arith, c, u);
      }

  planned-cases :
      (wt : WorktreeRecord) (s : Summary) (rest : List Decision) (d : Decision)
      → Memᴰ d (with_decision instant loops runs queue_items options wt s rest)
      → (d ≡ decide instant loops runs queue_items options wt s.would_clean) ⊎ Memᴰ d rest
  planned-cases wt s rest d m = elim (Bool-cases (wt.status == "cleaned")) [
    | inl e ↦ inr (rw e at m)
    | inr e ↦
        mem_cases d (decide instant loops runs queue_items options wt s.would_clean) rest
          (rw e at m)
  ]

  decisions-IsSpare :
      (ws : List WorktreeRecord) (s : Summary) (d : Decision)
      → Memᴰ d (plan_worktrees instant loops runs queue_items options ws s).1
      → d.action ≡ would_clean
      → IsSpare instant options loops runs queue_items d
  unfolding plan_worktrees
  decisions-IsSpare [] s d m h = absurd (Memᴰ-nil d m)
  decisions-IsSpare (wt ∷ ws) s d m h =
      elim (planned-cases wt s
        (plan_worktrees instant loops runs queue_items options ws
          (step instant loops runs queue_items options wt s)).1
        d m) [
          | inl e ↦
              subst (IsSpare instant options loops runs queue_items) (sym e)
                (decide-IsSpare wt s.would_clean (ap (λ (x : Decision). x.action) (sym e) ∙ h))
          | inr n ↦ decisions-IsSpare ws (step instant loops runs queue_items options wt s) d n h
        ]

-- Every worktree that a plan would clean is spare: no loop of its project that may still run
-- mentions it, no running one of the latest runs of the loops and no active queue item does; and no
-- loop of its project that mentions it ran or was changed after the cutoff, and none of the latest
-- runs of the loops that mentions it began, ended or was changed after the cutoff.
pub plan-IsSpare :
    (instant : Timestamp → Option ℕ) (options : CleanupOptions) (worktrees : List WorktreeRecord)
    (s : Repositories) (d : Decision)
    → Memᴰ d (plan instant options worktrees s).1
    → d.action ≡ would_clean
    → IsSpare instant options (Loops.list s.db) (runs_of_loops s) (Reads.list s.db) d
unfolding plan
plan-IsSpare instant options worktrees s d m h =
    decisions-IsSpare instant (Loops.list s.db) (runs_of_loops s) (Reads.list s.db) options
      (in_question worktrees) no_summary d m h
