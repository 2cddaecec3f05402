-- ===== src/Projects/Defs.antt =====
-- The operations of the service for projects (backend/internal/service/project.go). The order of
-- names is the collation of the database, a parameter.
use vaultly.Prelude.{
  sort_with, ℕ, Bool, true, false, ◌&&◌, ◌||◌, none, some, List, [], ◌∷◌, String, Text, codes, map,
  keep, length, ltb, ◌==◌, if◌then◌else◌, ℤ, pos, negsuc,
}
use vaultly.Domain.{
  Error, Fields, Action, owner, admin, member, viewer, add, error_or_nil, new_validation_error,
  project_created, project_deleted, environment_created,
}
use vaultly.Db.{ProjectRow, EnvironmentRow, SecretRow}
use vaultly.World.{
  Svc, Stmt, ok, pure, ◌>>=◌, ◌>>◌, check, run, translated, in_tx, record_event, Actor, Event, Meta,
}
use vaultly.Validate.{Unicode, validate_name, validate_description, slugify, matches_slug}
use vaultly.Queries.Roles.{is_project}
use vaultly.Queries.Projects.{
  get_environment, get_project, environment_name_exists, create_environment, project_slug_exists,
  create_project, update_project, soft_delete_project,
}
use vaultly.Authz.{require_workspace_role, require_project_role, require_environment_role}

pub record Project : Type 0 where
  pub id : ℕ
  pub workspace_id : ℕ
  pub name : Text
  pub slug : Text
  pub description : Text
  pub created_at : ℕ
  pub updated_at : ℕ

unfoldable pub project_of : ProjectRow → Project
project_of r = record {
  id = r.id;
  workspace_id = r.workspace_id;
  name = r.name;
  slug = r.slug;
  description = r.description;
  created_at = r.created_at;
  updated_at = r.updated_at;
}

pub record Environment : Type 0 where
  pub row : EnvironmentRow
  pub secret_count : ℕ

abbrev is_live_project : ℕ → ProjectRow → Bool
is_live_project workspace_id p = p.workspace_id == workspace_id && is_project p.id p

-- `ListProjects`
unfoldable pub list_projects : (Text → Text → Bool) → ℕ → Stmt (List ProjectRow)
list_projects before workspace_id st d =
    ok (sort_with (λ p q. before p.name q.name) (keep (is_live_project workspace_id) d.projects), d)

abbrev is_live_secret : ℕ → SecretRow → Bool
is_live_secret environment_id s =
    s.environment_id == environment_id && elim s.deleted_at [ none ↦ true | some _ ↦ false ]

abbrev environment_before : (Text → Text → Bool) → EnvironmentRow → EnvironmentRow → Bool
environment_before before e f = ltb e.rank f.rank || (e.rank == f.rank && before e.name f.name)

-- `ListEnvironments`, with the number of live secrets of each.
unfoldable pub list_environments : (Text → Text → Bool) → ℕ → Stmt (List Environment)
list_environments before project_id st d = ok (
  map (λ e. record { row = e; secret_count = length (keep (is_live_secret e.id) d.secrets) })
      (sort_with (environment_before before)
        (keep (λ e. e.project_id == project_id) d.environments)),
  d,
)

-- `ProjectService.List`
unfoldable pub list_of_workspace : (Text → Text → Bool) → ℕ → ℕ → Svc (List Project)
unfolding project_of
list_of_workspace before user_id workspace_id = do
  require_workspace_role user_id workspace_id viewer
  rows ← translated (run (list_projects before workspace_id))
  pure (map project_of rows)

-- `ProjectService.Get`
unfoldable pub get_of_project : ℕ → ℕ → Svc Project
unfolding project_of
get_of_project user_id project_id = do
  require_project_role user_id project_id viewer
  row ← translated (run (get_project project_id))
  pure (project_of row)

-- The problems of a slug.
abbrev pub checked_slug : Text → Fields → Fields
checked_slug [] v = add "slug" "could not be derived from the name; provide one explicitly" v
checked_slug (c ∷ s) v =
    if matches_slug (c ∷ s)
    then v
    else add "slug" "must contain only lowercase letters, digits and hyphens" v

abbrev pub slug_source : Text → Text → Text
slug_source name [] = name
slug_source name (c ∷ s) = c ∷ s

-- `DefaultEnvironments`
abbrev pub default_environments : List (Text × ℕ)
default_environments =
    (codes "development", 0) ∷ (codes "staging", 1) ∷ (codes "production", 2) ∷ []

-- The loop over the default environments.
abbrev pub create_environments : ℕ → List (Text × ℕ) → Svc (Unit {0})
create_environments project_id [] = pure tt
create_environments project_id ((name, rank) ∷ es) =
    translated (run (create_environment project_id name rank)) >> create_environments project_id es

-- The transaction of `Create`.
unfoldable pub create_project_tx : ℕ → Text → Text → Text → Svc Project
unfolding project_of
create_project_tx workspace_id name slug description = do
  created ← translated (run (create_project workspace_id name slug description))
  create_environments created.id default_environments
  pure (project_of created)

abbrev pub used_slug : Error
used_slug = new_validation_error "slug" "is already used by another project in this workspace"

abbrev pub project_event : ℕ → Actor → Action → ℕ → List (String × Meta) → Event
project_event workspace_id actor action project_id metadata = record {
  workspace_id = workspace_id;
  actor = actor;
  action = action;
  resource_type = "project";
  resource_id = some project_id;
  metadata = metadata;
}

-- `ProjectService.Create`
unfoldable pub create_in_workspace : Unicode → ℕ → ℕ → Text → Text → Text → Actor → Svc Project
unfolding create_project_tx
create_in_workspace u user_id workspace_id name slug description actor = do
  require_workspace_role user_id workspace_id member
  let (name', v) = validate_name u "name" name []
  let (description', v1) = validate_description "description" description v
  let slug' = slugify u (slug_source name' slug)
  check (error_or_nil (checked_slug slug' v1))
  exists ← translated (run (project_slug_exists workspace_id slug'))
  check (if exists then some used_slug else none)
  project ← in_tx (create_project_tx workspace_id name' slug' description')
  record_event (
      project_event workspace_id actor project_created project.id
        (("name", Meta.text project.name) ∷ ("slug", Meta.text project.slug) ∷ []))
  pure project

-- `ProjectService.Update`
unfoldable pub update_of_project : Unicode → ℕ → ℕ → Text → Text → Svc Project
unfolding project_of
update_of_project u user_id project_id name description = do
  require_project_role user_id project_id admin
  let (name', v) = validate_name u "name" name []
  let (description', v1) = validate_description "description" description v
  check (error_or_nil v1)
  row ← translated (run (update_project project_id name' description'))
  pure (project_of row)

-- `ProjectService.Delete`
unfoldable pub delete_of_project : ℕ → ℕ → Actor → Svc (Unit {0})
delete_of_project user_id project_id actor = do
  scope ← require_project_role user_id project_id owner
  translated (run (soft_delete_project project_id))
  record_event (project_event scope.workspace_id actor project_deleted project_id [])

-- `ListEnvironments` of the service.
unfoldable pub environments_of_project : (Text → Text → Bool) → ℕ → ℕ → Svc (List Environment)
environments_of_project before user_id project_id = do
  require_project_role user_id project_id viewer
  translated (run (list_environments before project_id))

-- `GetEnvironment` of the service.
unfoldable pub environment_of : ℕ → ℕ → Svc EnvironmentRow
environment_of user_id environment_id = do
  require_environment_role user_id environment_id viewer
  translated (run (get_environment environment_id))

abbrev used_name : Error
used_name = new_validation_error "name" "is already used by another environment in this project"

abbrev ranked : ℤ → ℕ
ranked (pos n) = n
ranked (negsuc n) = 0

abbrev checked_rank : ℤ → Fields → Fields
checked_rank (pos n) v = v
checked_rank (negsuc n) v = add "rank" "must not be negative" v

-- `CreateEnvironment` of the service; the rank is an `int32`.
unfoldable pub create_in_project : Unicode → ℕ → ℕ → Text → ℤ → Actor → Svc EnvironmentRow
create_in_project u user_id project_id name rank actor = do
  scope ← require_project_role user_id project_id admin
  let (name', v) = validate_name u "name" name []
  check (error_or_nil (checked_rank rank v))
  exists ← translated (run (environment_name_exists project_id name'))
  check (if exists then some used_name else none)
  row ← translated (run (create_environment project_id name' (ranked rank)))
  record_event (record {
    workspace_id = scope.workspace_id;
    actor = actor;
    action = environment_created;
    resource_type = "environment";
    resource_id = some row.id;
    metadata = ("name", Meta.text name') ∷ ("rank", Meta.number (ranked rank)) ∷ [];
  })
  pure row
