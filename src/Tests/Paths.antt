-- ===== src/Tests/Paths.antt =====
-- A directory beside the root of the worktrees.
use looper_rust.Prelude.{◌≡◌, ◌≢◌, ◌↔◌, refl, none, some}
use looper_rust.Git.Safety.{SafetyCheckInput, ok, validate_worktree_path}
use looper_rust.Git.Safety.Siblings.{IsNotRepo, IsInRoot, validate_worktree_path_iff}

-- beside the root, and not under it
abbrev beside : SafetyCheckInput
beside = record { path = "/trees-old/repo"; repo_path = none; worktree_root = some "/trees" }

validate_worktree_path_iff_example : (validate_worktree_path (λ s. ok s) beside ≡ ok tt) ↔ (
    (beside.path ≢ "")
    × IsNotRepo (λ s. ok s) beside.path none
    × IsInRoot (λ s. ok s) beside.path (some "/trees"))
validate_worktree_path_iff_example = validate_worktree_path_iff (λ s. ok s) beside

beside_accepted : validate_worktree_path (λ s. ok s) beside ≡ ok tt
unfolding validate_worktree_path
beside_accepted = refl
