-- ===== src/Types/LoopTarget.antt =====
-- crates/looper-types/src/loop_target.rs: what a loop operates on. The text of a number, which the
-- standard library writes, is a parameter.
use looper_rust.Prelude.{String, ◌==◌, Option, none, some, ℤ, pos, concat, if◌then◌else◌}
use looper_rust.Types.Domain.{Parsed, ok, err, unknown_loop_target_type}

pub data LoopTargetType : Type 0 where
  project pull_request issue : LoopTargetType

unfoldable pub as_str : LoopTargetType → String
as_str project = "project"
as_str pull_request = "pull_request"
as_str issue = "issue"

unfoldable pub from_str : String → Parsed LoopTargetType
from_str s =
    if s == "project"
    then ok project
    else if s == "pull_request"
    then ok pull_request
    else if s == "issue"
    then ok issue
    else err (unknown_loop_target_type s)

pub record LoopTarget : Type 0 where
  pub target_type : LoopTargetType
  pub project_id : Option String
  pub repo : Option String
  pub number : Option ℤ

abbrev pub unwrap_or {ℓ} : {A : Type ℓ} → A → Option A → A
unwrap_or a none = a
unwrap_or a (some b) = b

-- `{repo}#{number}`
abbrev pub numbered : (ℤ → String) → LoopTarget → String
numbered to_string t =
    concat (unwrap_or "?" t.repo) (concat "#" (to_string (unwrap_or (pos 0) t.number)))

abbrev pub key_of : (ℤ → String) → LoopTargetType → LoopTarget → String
key_of to_string project t = concat "project:" (unwrap_or "?" t.project_id)
key_of to_string pull_request t = concat "pr:" (numbered to_string t)
key_of to_string issue t = concat "issue:" (numbered to_string t)

unfoldable pub loop_target_key : (ℤ → String) → LoopTarget → String
loop_target_key to_string t = key_of to_string t.target_type t
