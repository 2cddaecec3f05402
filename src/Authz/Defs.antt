-- ===== src/Authz/Defs.antt =====
-- `Authorizer`: it resolves a caller's role where a resource lives, and compares it
-- (backend/internal/service/authz.go).
use vaultly.Prelude.{ℕ, Option, none, some, if◌then◌else◌}
use vaultly.Domain.{Role, Error, valid, at_least}
use vaultly.World.{Svc, pure, ◌>>=◌, ◌>>◌, check, run, translated}
use vaultly.Queries.Roles.{
  get_workspace_role, get_workspace_role_by_project, get_workspace_role_by_environment,
  get_workspace_role_by_secret, get_workspace_role_by_token,
}

pub record Scope : Type 0 where
  pub workspace_id : ℕ
  pub project_id : ℕ
  pub environment_id : ℕ
  pub role : Role

-- `requireRole`
unfoldable pub require_role : Role → Role → Option Error
require_role actual minimum =
    if valid actual
    then (if at_least actual minimum then none else some Error.forbidden)
    else some Error.forbidden

-- A missing row is `ErrNotFound`, as `translateDBError` has it too.
unfoldable pub require_workspace_role : ℕ → ℕ → Role → Svc Scope
require_workspace_role user_id workspace_id minimum = do
  role ← translated (run (get_workspace_role workspace_id user_id))
  check (require_role role minimum)
  pure (record { workspace_id = workspace_id; project_id = 0; environment_id = 0; role = role })

unfoldable pub require_project_role : ℕ → ℕ → Role → Svc Scope
require_project_role user_id project_id minimum = do
  row ← translated (run (get_workspace_role_by_project project_id user_id))
  check (require_role row.role minimum)
  pure (record {
    workspace_id = row.workspace_id;
    project_id = project_id;
    environment_id = 0;
    role = row.role;
  })

unfoldable pub require_environment_role : ℕ → ℕ → Role → Svc Scope
require_environment_role user_id environment_id minimum = do
  row ← translated (run (get_workspace_role_by_environment environment_id user_id))
  check (require_role row.role minimum)
  pure (record {
    workspace_id = row.workspace_id;
    project_id = row.project_id;
    environment_id = environment_id;
    role = row.role;
  })

unfoldable pub require_secret_role : ℕ → ℕ → Role → Svc Scope
require_secret_role user_id secret_id minimum = do
  row ← translated (run (get_workspace_role_by_secret secret_id user_id))
  check (require_role row.role minimum)
  pure (record {
    workspace_id = row.workspace_id;
    project_id = row.project_id;
    environment_id = row.environment_id;
    role = row.role;
  })

unfoldable pub require_token_role : ℕ → ℕ → Role → Svc Scope
require_token_role user_id token_id minimum = do
  row ← translated (run (get_workspace_role_by_token token_id user_id))
  check (require_role row.role minimum)
  pure (record {
    workspace_id = row.workspace_id;
    project_id = 0;
    environment_id = 0;
    role = row.role;
  })
