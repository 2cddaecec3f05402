-- ===== src/Authz/Laws.antt =====
-- What the authorizer decides (backend/internal/service/authz.go).
use vaultly.Prelude.{ℕ}
use vaultly.Domain.{Role}
use vaultly.World.Respects.{Relation, Respects, Respects-run, respects_rules}
use vaultly.Queries.Reads.{read_rules}
use vaultly.Authz.Defs.{
  require_workspace_role, require_project_role, require_environment_role, require_secret_role,
  require_token_role,
}

module _ {R : Relation} (user_id id : ℕ) (minimum : Role) where
  pub Respects-require_workspace_role : Respects R (require_workspace_role user_id id minimum)
  unfolding require_workspace_role
  Respects-require_workspace_role = search (respects_rules, Respects-run, read_rules) depth 9

  pub Respects-require_project_role : Respects R (require_project_role user_id id minimum)
  unfolding require_project_role
  Respects-require_project_role = search (respects_rules, Respects-run, read_rules) depth 9

  pub Respects-require_environment_role : Respects R (require_environment_role user_id id minimum)
  unfolding require_environment_role
  Respects-require_environment_role = search (respects_rules, Respects-run, read_rules) depth 9

  pub Respects-require_secret_role : Respects R (require_secret_role user_id id minimum)
  unfolding require_secret_role
  Respects-require_secret_role = search (respects_rules, Respects-run, read_rules) depth 9

  pub Respects-require_token_role : Respects R (require_token_role user_id id minimum)
  unfolding require_token_role
  Respects-require_token_role = search (respects_rules, Respects-run, read_rules) depth 9
