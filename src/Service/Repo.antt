-- ===== src/Service/Repo.antt =====
-- crates/looper-service/src/project_service.rs: the repository of a project. `str::trim`, and the
-- "repo" text of the JSON of a project, are parameters.
use looper_rust.Prelude.{
  ℕ, zero, suc, ◌+◌, ◌-◌, String, ◌==◌, starts_with, Bool, true, false, not, ◌&&◌, ◌||◌, Option,
  none, some, List, [], ◌∷◌, keep, concat, contains, strip_prefix, if◌then◌else◌,
}
use Prim.Native.String.{len, slice}
use text.Mathlib.Text.{find?}
use looper_rust.Storage.Schema.{ProjectRecord}
use looper_rust.Types.LoopTarget.{unwrap_or}
use looper_rust.Service.Outcome.{Result, ok, err, project_repo_unresolved}

-- `str::strip_suffix`
abbrev pub strip_suffix : String → String → Option String
strip_suffix s p =
    if slice s (len s - len p) (len s) == p then some (slice s 0 (len s - len p)) else none

-- `str::split`. A part is shorter than the text, so as many steps as the text is long are enough.
unfoldable pub split_up_to : ℕ → String → String → List String
split_up_to zero s sep = s ∷ []
split_up_to (suc n) s sep = elim (find? s sep) [
  | none ↦ s ∷ []
  | some i ↦ slice s 0 i ∷ split_up_to n (slice s (i + len sep) (len s)) sep
]

abbrev pub split : String → String → List String
split s sep = split_up_to (len s) s sep

-- every character of the text is one of the alphabet
unfoldable pub is_over : ℕ → String → String → Bool
is_over zero alphabet s = true
is_over (suc n) alphabet s = contains alphabet (slice s n (suc n)) && is_over n alphabet s

abbrev pub name_alphabet : String
name_alphabet = "abcdefghijklmnopqrstuvwxyzABCDEFGHIJKLMNOPQRSTUVWXYZ0123456789-_."

abbrev pub is_name : String → Bool
is_name p = not (p == "") && is_over (len p) name_alphabet p

abbrev pub are_names : List String → Bool
are_names (owner ∷ name ∷ []) = is_name owner && is_name name
are_names _ = false

abbrev pub without_host : String → String
without_host s = elim (strip_prefix s "https://github.com/") [
  | some rest ↦ rest
  | none ↦ elim (strip_prefix s "http://github.com/") [
    | some rest ↦ rest
    | none ↦ unwrap_or s (strip_prefix s "git@github.com:")
  ]
]

abbrev pub first_two : String → List String → String
first_two s (owner ∷ name ∷ rest) = concat owner (concat "/" name)
first_two s _ = s

module _ (trim : String → String) where
  unfoldable pub normalize_repo_spec : String → String
  normalize_repo_spec repo =
      let s = trim repo in
      let s' = without_host (unwrap_or s (strip_suffix s "/")) in
      let s'' = unwrap_or s' (strip_suffix s' ".git") in
      first_two s'' (keep (λ p. not (p == "")) (split s'' "/"))

  unfoldable pub looks_like_owner_repo : String → Bool
  looks_like_owner_repo repo =
      let s = trim repo in
      not (
        s == ""
        || (starts_with s "/" || (starts_with s "." || (contains s "\\" || contains s ":"))))
      && are_names (split s "/")

  abbrev pub repo_of_text : String → Option String
  repo_of_text s = if trim s == "" then none else some (normalize_repo_spec (trim s))

module _ (trim : String → String) (metadata_repo : String → Option String) where
  abbrev pub metadata_text : Option String → Option String
  metadata_text none = none
  metadata_text (some raw) = metadata_repo raw

  unfoldable pub repo_from_metadata : Option String → Option String
  repo_from_metadata metadata_json = elim (metadata_text metadata_json) [
    | none ↦ none
    | some s ↦ repo_of_text trim s
  ]

  unfoldable pub resolve_project_repo : ProjectRecord → Result String
  resolve_project_repo project = elim (repo_from_metadata project.metadata_json) [
    | some repo ↦ ok repo
    | none ↦
        if looks_like_owner_repo trim (trim project.repo_path)
        then ok (trim project.repo_path)
        else err (project_repo_unresolved project.id)
  ]
