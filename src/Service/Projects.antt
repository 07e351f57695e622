-- ===== src/Service/Projects.antt =====
-- crates/looper-service/src/project_service.rs: the list of projects, and how one is removed. The time
-- of a call is an argument. `trim` and `to_lowercase` of texts, and the "source" text of the JSON of
-- a project, are parameters.
pub mod Removed
use looper_rust.Prelude.{
  String, ◌==◌, starts_with, Bool, true, false, not, ◌&&◌, ◌||◌, Option, none, some, List, [], ◌∷◌,
  keep, ltb, if◌then◌else◌,
}
use looper_rust.Storage.Schema.{Timestamp, ProjectRecord, Db}
use looper_rust.Storage.Schema
use looper_rust.Storage.Sql.{order_by, sql_eq}
use looper_rust.Storage.Loops
use looper_rust.Storage.Projects
use looper_rust.Storage.Update.{cancel_by_project}
use looper_rust.Service.Outcome.{
  Result, ok, err, Service, project_not_found, invalid_project_id, ambiguous_project_identifier,
  config_managed_project, ◌>>=◌, ◌>>◌, return, guard, lift, reads, statement,
}

abbrev pub is_enabled : ProjectRecord → Bool
is_enabled p = not p.archived

abbrev pub by_update : ProjectRecord → ProjectRecord → Bool
by_update a b = ltb b.updated_at a.updated_at

unfoldable pub list : Service (List ProjectRecord)
list = do
  projects ← reads (λ db. Projects.list db.projects)
  return (order_by by_update (keep is_enabled projects))

abbrev pub enabled : Option ProjectRecord → Option ProjectRecord
enabled none = none
enabled (some p) = if p.archived then none else some p

abbrev pub the_only : String → List ProjectRecord → Result ProjectRecord
the_only identifier [] = err (project_not_found identifier)
the_only identifier (p ∷ []) = ok p
the_only identifier (p ∷ q ∷ rest) = err (ambiguous_project_identifier identifier)

module _ (trim to_lowercase : String → String) where
  abbrev pub has_name : String → ProjectRecord → Bool
  has_name identifier p = trim (to_lowercase p.name) == trim (to_lowercase identifier)

  -- by its id, or else by its name
  unfoldable pub resolve : String → List ProjectRecord → Result ProjectRecord
  resolve identifier projects = elim (enabled (Projects.get_by_id identifier projects)) [
    | some p ↦ ok p
    | none ↦
        the_only identifier
          (keep (λ p. is_enabled p && has_name identifier p) (Projects.list projects))
  ]

abbrev pub is_config_managed : (String → Option String) → ProjectRecord → Bool
is_config_managed source_of p = elim p.metadata_json [
  | none ↦ false
  | some raw ↦ sql_eq (source_of raw) "config"
]

module _ (trim to_lowercase : String → String) (source_of : String → Option String) where
  unfoldable pub remove_project : String → Timestamp → Service ProjectRecord
  remove_project identifier now = do
    guard (not (identifier == "")) (invalid_project_id "identifier is empty")
    projects ← reads (λ db. db.projects)
    project ← lift (resolve trim to_lowercase identifier projects)
    guard (not (is_config_managed source_of project)) (config_managed_project project.id)
    archived ← statement (λ db. Schema.ok (Projects.archive project.id now db))
    guard archived (project_not_found project.id)
    terminated ← statement (λ db. Schema.ok (Loops.terminate_by_project project.id now db))
    cancelled ← statement (cancel_by_project project.id now (some "project archived"))
    return (record project { archived = true; updated_at = now })
