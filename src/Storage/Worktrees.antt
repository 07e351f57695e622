-- ===== src/Storage/Worktrees.antt =====
-- crates/looper-storage/src/repos/worktrees.rs: the lists that the cleanup reads.
use looper_rust.Prelude.{
  ℕ, String, ◌==◌, Bool, true, false, not, ◌&&◌, Option, none, some, List, keep, ltb,
}
use looper_rust.Storage.Schema.{Timestamp}
use looper_rust.Storage.Sql.{order_by, limit}

pub record WorktreeRecord : Type 0 where
  pub id : String
  pub project_id : String
  pub repo_path : String
  pub worktree_path : String
  pub branch : String
  pub base_branch : Option String
  pub status : String
  pub head_sha : Option String
  pub metadata_json : Option String
  pub created_at : Timestamp
  pub updated_at : Timestamp
  pub cleaned_at : Option Timestamp

abbrev pub is_null {ℓ} : {A : Type ℓ} → Option A → Bool
is_null none = true
is_null (some a) = false

unfoldable pub list_active : List WorktreeRecord → List WorktreeRecord
list_active rows =
    order_by (λ (a b : WorktreeRecord). ltb b.updated_at a.updated_at)
      (keep (λ (w : WorktreeRecord). w.status == "active") rows)

unfoldable pub list_cleanup_candidates : ℕ → List WorktreeRecord → List WorktreeRecord
list_cleanup_candidates n rows = limit n (
    order_by (λ (a b : WorktreeRecord). ltb a.updated_at b.updated_at)
      (keep (λ (w : WorktreeRecord). is_null w.cleaned_at && not (w.status == "active")) rows))
