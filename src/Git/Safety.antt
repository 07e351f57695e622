-- ===== src/Git/Safety.antt =====
-- crates/looper-git/src/safety.rs. `canonicalize_safe` asks the file system, and is a parameter; the
-- details of an error are the branch that raises it.
pub mod Siblings
use looper_rust.Prelude.{
  String, ◌==◌, starts_with, Bool, true, false, not, Option, none, some, List, any, if◌then◌else◌,
}

pub data SafetyFailure : Type 0 where
  path_is_empty path_is_repo root_is_empty path_is_root not_under_root : SafetyFailure

pub data GitError : Type 0 where
  protected_branch : String → GitError
  safety_check_failed : SafetyFailure → GitError
  -- of `canonicalize_safe`
  io : String → GitError

pub data Result (A : Type 0) : Type 0 where
  ok : A → Result A
  err : GitError → Result A

infixl 5 ◌>>=◌ ◌>>◌
abbrev pub ◌>>=◌ : {A B : Type 0} → Result A → (A → Result B) → Result B
ok a >>= f = f a
err e >>= f = err e

abbrev pub ◌>>◌ : {A B : Type 0} → Result A → Result B → Result B
m >> k = m >>= λ _. k

-- `if … { return Err(…); }`
abbrev pub fail_if : Bool → GitError → Result (Unit {0})
fail_if true e = err e
fail_if false e = ok tt

pub record SafetyCheckInput : Type 0 where
  pub path : String
  pub repo_path : Option String
  pub worktree_root : Option String

unfoldable pub assert_writable_branch : String → List String → Result (Unit {0})
assert_writable_branch branch protected_branches =
    fail_if (any (λ b. b == branch) protected_branches) (protected_branch branch)

module _ (canonicalize_safe : String → Result String) where
  abbrev pub check_repo_path : String → Option String → Result (Unit {0})
  check_repo_path path none = ok tt
  check_repo_path path (some repo_path) = do
    repo_canonical ← canonicalize_safe repo_path
    wt_canonical ← canonicalize_safe path
    fail_if (wt_canonical == repo_canonical) (safety_check_failed path_is_repo)

  abbrev pub check_worktree_root : String → Option String → Result (Unit {0})
  check_worktree_root path none = ok tt
  check_worktree_root path (some root) = do
    fail_if (root == "") (safety_check_failed root_is_empty)
    root_canonical ← canonicalize_safe root
    wt_canonical ← canonicalize_safe path
    fail_if (wt_canonical == root_canonical) (safety_check_failed path_is_root)
    fail_if (not (starts_with wt_canonical root_canonical)) (safety_check_failed not_under_root)

  unfoldable pub validate_worktree_path : SafetyCheckInput → Result (Unit {0})
  validate_worktree_path input = do
    fail_if (input.path == "") (safety_check_failed path_is_empty)
    check_repo_path input.path input.repo_path
    check_worktree_root input.path input.worktree_root
