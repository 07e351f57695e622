-- ===== src/Types/LoopType.antt =====
-- crates/looper-types/src/loop_type.rs: the kinds of loops, and what they may target.
use looper_rust.Prelude.{String, ◌==◌, Bool, List, [], ◌∷◌, any, if◌then◌else◌}
use looper_rust.Types.Domain.{Parsed, ok, err, unknown_loop_type}
use looper_rust.Types.LoopTarget
use looper_rust.Types.LoopTarget.{LoopTargetType, project, pull_request, issue}

pub data LoopType : Type 0 where
  planner reviewer worker fixer : LoopType

unfoldable pub as_str : LoopType → String
as_str planner = "planner"
as_str reviewer = "reviewer"
as_str worker = "worker"
as_str fixer = "fixer"

unfoldable pub from_str : String → Parsed LoopType
from_str s =
    if s == "planner"
    then ok planner
    else if s == "reviewer"
    then ok reviewer
    else if s == "worker"
    then ok worker
    else if s == "fixer"
    then ok fixer
    else err (unknown_loop_type s)

unfoldable pub allowed_target_types : LoopType → List LoopTargetType
allowed_target_types planner = project ∷ issue ∷ []
allowed_target_types reviewer = pull_request ∷ issue ∷ []
allowed_target_types worker = pull_request ∷ issue ∷ []
allowed_target_types fixer = pull_request ∷ issue ∷ []

-- the derived equality, by the texts that tell the targets apart
abbrev pub same_target : LoopTargetType → LoopTargetType → Bool
same_target a b = LoopTarget.as_str a == LoopTarget.as_str b

unfoldable pub supports_target_type : LoopType → LoopTargetType → Bool
unfolding allowed_target_types
supports_target_type t target_type = any (same_target target_type) (allowed_target_types t)

unfoldable pub steps : LoopType → List String
steps planner = "discover-issues" ∷ "prepare-worktree" ∷ "write-spec" ∷ "publish" ∷ "notify" ∷ []
steps reviewer =
    "discover" ∷ "filter" ∷ "claim" ∷ "snapshot" ∷ "prepare-worktree" ∷ "review" ∷ "publish" ∷ []
steps worker =
    "prepare-work" ∷ "prepare-worktree" ∷ "plan" ∷ "execute" ∷ "validate" ∷ "open-pr" ∷ []
steps fixer =
    "discover-pr" ∷ "claim-pr" ∷ "collect-fixes" ∷ "prepare-worktree" ∷ "repair" ∷ "validate"
    ∷ "push" ∷ "reconcile-commits" ∷ "resolve-comments" ∷ "recheck" ∷ []
