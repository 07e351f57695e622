-- ===== src/Infra/WorktreeCleanup/Used.antt =====
-- The last use of a worktree that the scans of crates/looper-infra/src/worktree_cleanup/plan.rs find.
use looper_rust.Prelude.{
  ℕ, Bool, false, ◌&&◌, ◌||◌, ◌≡◌, refl, ◌∙◌, inl, inr, Option, none, some, List, [], ◌∷◌, any, ltb,
  arith, Bool-cases,
}
use looper_rust.Storage.Schema.{Timestamp, QueueItemRecord, LoopRecord, is_active}
use looper_rust.Storage.Runs.{RunRecord}
use looper_rust.Storage.Worktrees.{WorktreeRecord}
use looper_rust.Infra.WorktreeCleanup.{
  CleanupOptions, Scan, scan_loop, scan_run, scan_queue_item, scan_all, worktree_matches_loop,
  worktree_matches_run, worktree_matches_queue, later, update_last_used, update_if_some,
}
use looper_rust.Infra.WorktreeCleanup.Plan.{scan, is_recent}

-- what a scan shows in the end is what one of the rows shows, or what it showed before
pub observed {ℓ} :
    {A : Type ℓ} (observe : Scan → Bool) (f : A → Scan → Scan) (shows : A → Bool)
    → ((a : A) (s : Scan) → observe (f a s) ≡ (shows a || observe s))
    → (xs : List A) (s : Scan) → observe (scan_all f xs s) ≡ (any shows xs || observe s)
unfolding scan_all
observed observe f shows h [] s = refl
observed observe f shows h (x ∷ xs) s = ground (arith, observed observe f shows h xs (f x s), h x s)

-- an instant after the cutoff
abbrev pub is_since : ℕ → Option ℕ → Bool
is_since cutoff none = false
is_since cutoff (some t) = ltb cutoff t

later-is_since :
    (cutoff : ℕ) (acc t : Option ℕ)
    → is_recent cutoff (later acc t) ≡ (is_since cutoff t || is_recent cutoff acc)
later-is_since cutoff acc none = refl
later-is_since cutoff none (some t) = ground arith
later-is_since cutoff (some a) (some t) = ground arith

module _ (instant : Timestamp → Option ℕ) (cutoff : ℕ) where
  abbrev pub dates_since : Timestamp → Bool
  dates_since t = is_since cutoff (instant t)

  abbrev pub some_since : Option Timestamp → Bool
  some_since none = false
  some_since (some t) = dates_since t

  -- a loop of the project mentions the worktree, and ran or was changed since the cutoff
  abbrev pub is_used_by_loop : WorktreeRecord → LoopRecord → Bool
  is_used_by_loop wt l =
      worktree_matches_loop wt l && (some_since l.last_run_at || dates_since l.updated_at)

  -- a run mentions the worktree, and began, ended or was changed since the cutoff
  abbrev pub is_used_by_run : WorktreeRecord → RunRecord → Bool
  is_used_by_run wt r =
      worktree_matches_run wt r
      && (some_since r.ended_at || (dates_since r.started_at || dates_since r.updated_at))

  abbrev pub is_used_by_item : WorktreeRecord → QueueItemRecord → Bool
  is_used_by_item wt q =
      is_active q
      && worktree_matches_queue wt q
      && (dates_since q.created_at || dates_since q.updated_at)

  abbrev recently : Scan → Bool
  recently s = is_recent cutoff s.last_used_at

  update-since :
      (t : Timestamp) (acc : Option ℕ)
      → is_recent cutoff (update_last_used instant t acc) ≡ (dates_since t || is_recent cutoff acc)
  unfolding update_last_used
  update-since t acc = later-is_since cutoff acc (instant t)

  update_some-since :
      (o : Option Timestamp) (acc : Option ℕ)
      → is_recent cutoff (update_if_some instant o acc) ≡ (some_since o || is_recent cutoff acc)
  update_some-since none acc = refl
  update_some-since (some t) acc = update-since t acc

  module _ (wt : WorktreeRecord) where
    loop_uses :
        (l : LoopRecord) (s : Scan)
        → recently (scan_loop instant wt l s) ≡ (is_used_by_loop wt l || recently s)
    unfolding scan_loop
    loop_uses l s = elim (Bool-cases (worktree_matches_loop wt l)) [
      | inr e ↦ rw e refl
      | inl e ↦
          rw
            (
              e,
              update_some-since l.last_run_at
                  (update_last_used instant l.updated_at s.last_used_at),
              update-since l.updated_at s.last_used_at,
            )
            (ground arith)
    ]

    run_uses :
        (r : RunRecord) (s : Scan)
        → recently (scan_run instant wt r s) ≡ (is_used_by_run wt r || recently s)
    unfolding scan_run
    run_uses r s = elim (Bool-cases (worktree_matches_run wt r)) [
      | inr e ↦ rw e refl
      | inl e ↦
          rw
            (
              e,
              update_some-since r.ended_at _,
              update-since r.started_at _,
              update-since r.updated_at s.last_used_at,
            )
            (ground arith)
    ]

    item_uses :
        (q : QueueItemRecord) (s : Scan)
        → recently (scan_queue_item instant wt q s) ≡ (is_used_by_item wt q || recently s)
    unfolding scan_queue_item
    item_uses q s = elim (Bool-cases (is_active q && worktree_matches_queue wt q)) [
      | inr e ↦ rw e refl
      | inl e ↦
          rw (e, update-since q.created_at _, update-since q.updated_at s.last_used_at)
            (ground arith)
    ]

module _ (instant : Timestamp → Option ℕ) (loops : List LoopRecord) (runs : List RunRecord)
    (queue_items : List QueueItemRecord) (options : CleanupOptions) (cutoff : ℕ)
    (wt : WorktreeRecord) where
  pub scan_recent :
      is_recent cutoff (scan instant loops runs queue_items options wt).last_used_at ≡ (
        any (is_used_by_item instant cutoff wt) queue_items
        || (any (is_used_by_run instant cutoff wt) runs
            || (any (is_used_by_loop instant cutoff wt) loops || false)))
  unfolding scan
  scan_recent =
      observed (recently instant cutoff) (scan_queue_item instant wt)
        (is_used_by_item instant cutoff wt) (item_uses instant cutoff wt) queue_items _
      ∙ rw
          (observed (recently instant cutoff) (scan_run instant wt)
            (is_used_by_run instant cutoff wt) (run_uses instant cutoff wt) runs _)
          (rw
            (observed (recently instant cutoff) (scan_loop instant wt)
              (is_used_by_loop instant cutoff wt) (loop_uses instant cutoff wt) loops _)
            refl)
