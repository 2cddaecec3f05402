-- ===== src/Queries/Projects.antt =====
-- The statements on projects and environments (backend/internal/db/sqlcgen/projects.sql.go).
use vaultly.Prelude.{
  ℕ, Bool, ◌&&◌, none, some, ◌∷◌, Text, text_eq, first, any, update_where, ◌==◌, if◌then◌else◌,
}
use vaultly.Db.{ProjectRow, EnvironmentRow}
use vaultly.World.{ok, err, no_rows, unique_violation, foreign_key_violation, Stmt, Stamp}
use vaultly.Queries.Roles.{is_project}

-- `GetEnvironment`
unfoldable pub get_environment : ℕ → Stmt EnvironmentRow
get_environment id st d = elim (first (λ e. e.id == id) d.environments) [
  | none ↦ err no_rows
  | some e ↦ ok (e, d)
]

-- `GetProject`
unfoldable pub get_project : ℕ → Stmt ProjectRow
get_project id st d = elim (first (is_project id) d.projects) [
  | none ↦ err no_rows
  | some p ↦ ok (p, d)
]

-- `EnvironmentNameExists`
unfoldable pub environment_name_exists : ℕ → Text → Stmt Bool
environment_name_exists project_id name st d =
    ok (any (λ e. e.project_id == project_id && text_eq e.name name) d.environments, d)

abbrev pub new_environment : ℕ → Text → ℕ → Stamp → EnvironmentRow
new_environment project_id name rank st = record {
  id = st.uuid;
  project_id = project_id;
  name = name;
  rank = rank;
  created_at = st.time;
  updated_at = st.time;
}

-- `CreateEnvironment`
unfoldable pub create_environment : ℕ → Text → ℕ → Stmt EnvironmentRow
create_environment project_id name rank st d =
    if any (λ p. p.id == project_id) d.projects
    then (if any (λ e. e.id == st.uuid) d.environments
        then err unique_violation
        else if any (λ e. e.project_id == project_id && text_eq e.name name) d.environments
        then err unique_violation
        else ok (
          new_environment project_id name rank st,
          record d { environments = new_environment project_id name rank st ∷ d.environments },
        ))
    else err foreign_key_violation

-- `ProjectSlugExists`
unfoldable pub project_slug_exists : ℕ → Text → Stmt Bool
project_slug_exists workspace_id slug st d = ok (
  any (λ p. p.workspace_id == workspace_id && text_eq p.slug slug && is_project p.id p) d.projects,
  d,
)

abbrev pub new_project : ℕ → Text → Text → Text → Stamp → ProjectRow
new_project workspace_id name slug description st = record {
  id = st.uuid;
  workspace_id = workspace_id;
  name = name;
  slug = slug;
  description = description;
  created_at = st.time;
  updated_at = st.time;
  deleted_at = none;
}

-- `CreateProject`: the slug is unique in the workspace, among deleted projects too.
unfoldable pub create_project : ℕ → Text → Text → Text → Stmt ProjectRow
create_project workspace_id name slug description st d =
    if any (λ w. w.id == workspace_id) d.workspaces
    then (if any (λ p. p.id == st.uuid) d.projects
        then err unique_violation
        else if any (λ p. p.workspace_id == workspace_id && text_eq p.slug slug) d.projects
        then err unique_violation
        else ok (
          new_project workspace_id name slug description st,
          record d { projects = new_project workspace_id name slug description st ∷ d.projects },
        ))
    else err foreign_key_violation

-- `UpdateProject`
unfoldable pub update_project : ℕ → Text → Text → Stmt ProjectRow
update_project id name description st d = elim (first (is_project id) d.projects) [
  | none ↦ err no_rows
  | some p ↦ ok (
    record p { name = name; description = description; updated_at = st.time },
    record d {
      projects =
          update_where (is_project id)
            (λ q. record q { name = name; description = description; updated_at = st.time })
            d.projects;
    },
  )
]

-- `SoftDeleteProject`
unfoldable pub soft_delete_project : ℕ → Stmt (Unit {0})
soft_delete_project id st d = ok (
  tt,
  record d {
    projects =
        update_where (is_project id) (λ q. record q { deleted_at = some st.time }) d.projects;
  },
)
