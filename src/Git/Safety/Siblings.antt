-- ===== src/Git/Safety/Siblings.antt =====
-- The paths that crates/looper-git/src/safety.rs takes for paths under a root.
use looper_rust.Prelude.{
  String, ◌==◌, eq_iff, starts_with, true, not, ◌≡◌, ◌≢◌, ◌↔◌, refl, Option, none, some, concat,
  arith,
}
use text.Mathlib.TextEquality.{starts_with_iff}
use looper_rust.Git.Safety.{
  Result, ok, err, GitError, ◌>>=◌, ◌>>◌, fail_if, validate_worktree_path, check_repo_path,
  check_worktree_root, SafetyCheckInput, safety_check_failed, path_is_root, not_under_root,
}

-- the text of a path goes on after another text, with a separator or without one
abbrev pub GoesOn : String → String → Type 0
GoesOn path root = (rest : String) × (concat root rest ≡ path)

module _ (canonicalize_safe : String → Result String) where
  abbrev pub HasCanonical : String → String → Type 0
  HasCanonical path c = canonicalize_safe path ≡ ok c

  -- the canonical texts of the path and of the other one exist and differ
  abbrev pub Differs : String → String → Type 0
  Differs path other =
      (c : String) × (p : String) × HasCanonical other c × HasCanonical path p × (p ≢ c)

  abbrev pub IsUnder : String → String → Type 0
  IsUnder path root =
      (c : String) × (p : String) × HasCanonical root c × HasCanonical path p × (p ≢ c) × GoesOn p c

  -- the path is not the repository, if one is given
  abbrev pub IsNotRepo : String → Option String → Type 0
  IsNotRepo path none = Unit {0}
  IsNotRepo path (some repo) = Differs path repo

  -- the path is another one than the root, and its text goes on after that of the root
  abbrev pub IsInRoot : String → Option String → Type 0
  IsInRoot path none = Unit {0}
  IsInRoot path (some root) = (root ≢ "") × IsUnder path root

ok_injective : (a b : String) → ◌≡◌ {A = Result String} (ok a) (ok b) → a ≡ b
ok_injective a b h = cc

refused : (e : GitError) (s : String) → ¬ (◌≡◌ {A = Result String} (err e) (ok s))
refused e s h = cc

stopped : (e : GitError) → ¬ (◌≡◌ {A = Result (Unit {0})} (err e) (ok tt))
stopped e h = cc

-- a test on two canonical texts passes exactly if both exist and fulfil its condition
both_iff :
    (f : String → String → Result (Unit {0})) (P : String → String → Type 0)
    → ((c p : String) → (f c p ≡ ok tt) ↔ P c p)
    → (a b : Result String)
    → ((a >>= λ c. b >>= f c) ≡ ok tt)
      ↔ ((c : String) × (p : String) × (a ≡ ok c) × (b ≡ ok p) × P c p)
both_iff f P h (err e) b = (λ k. absurd (stopped e k), λ (c, p, k, m, n). absurd (refused e c k))
both_iff f P h (ok c) (err e) =
    (λ k. absurd (stopped e k), λ (c', p, k, m, n). absurd (refused e p m))
both_iff f P h (ok c) (ok p) = (
  λ k. (c, p, refl, refl, (h c p).0 k),
  λ (c', p', k, m, n). (h c p).1 (rw (ok_injective c c' k, ok_injective p p' m) n),
)

differs_iff : (f : GitError) (c p : String) → (fail_if (p == c) f ≡ ok tt) ↔ (p ≢ c)
differs_iff f c p = ground (arith, eq_iff p c)

prefix_iff : (c p : String) → (starts_with p c ≡ true) ↔ GoesOn p c
prefix_iff c p = starts_with_iff p c

under_iff :
    (f g : GitError) (c p : String)
    → ((fail_if (p == c) f >> fail_if (not (starts_with p c)) g) ≡ ok tt) ↔ ((p ≢ c) × GoesOn p c)
under_iff f g c p = ground (arith, eq_iff p c, prefix_iff c p)

module _ (canonicalize_safe : String → Result String) where
  repo_iff :
      (path : String) (repo : Option String)
      → (check_repo_path canonicalize_safe path repo ≡ ok tt)
        ↔ IsNotRepo canonicalize_safe path repo
  repo_iff path none = (λ h. tt, λ h. refl)
  repo_iff path (some repo) =
      both_iff _ _ (differs_iff _) (canonicalize_safe repo) (canonicalize_safe path)

  root_iff :
      (path : String) (root : Option String)
      → (check_worktree_root canonicalize_safe path root ≡ ok tt)
        ↔ IsInRoot canonicalize_safe path root
  root_iff path none = (λ h. tt, λ h. refl)
  root_iff path (some root) =
      let under =
        both_iff _ _
          (under_iff (safety_check_failed path_is_root) (safety_check_failed not_under_root))
          (canonicalize_safe root) (canonicalize_safe path) in
      ground (arith, eq_iff root "", under)

  -- A path is accepted exactly if its text is not empty, its canonical text is another than that of
  -- the repository, if one is given, and, if a root is given, whose text is not empty either, its
  -- canonical text is another than that of the root and goes on after it, with a separator or
  -- without one. The canonical texts that are compared must exist.
  pub validate_worktree_path_iff :
      (input : SafetyCheckInput)
      → (validate_worktree_path canonicalize_safe input ≡ ok tt) ↔ (
          (input.path ≢ "")
          × IsNotRepo canonicalize_safe input.path input.repo_path
          × IsInRoot canonicalize_safe input.path input.worktree_root)
  unfolding validate_worktree_path
  validate_worktree_path_iff input = ground (
    arith,
    eq_iff input.path "",
    repo_iff input.path input.repo_path,
    root_iff input.path input.worktree_root,
  )
