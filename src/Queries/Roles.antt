-- ===== src/Queries/Roles.antt =====
-- The statements that resolve a caller's role (backend/internal/db/sqlcgen/workspaces.sql.go).
-- Each joins a resource to its live project and the project's workspace to its members.
use vaultly.Prelude.{ℕ, Bool, true, false, ◌&&◌, Option, none, some, first, ◌==◌}
use vaultly.Domain.{Role}
use vaultly.Db.{Db, MemberRow, ProjectRow}
use vaultly.World.{Outcome, ok, err, DbError, no_rows, Stmt}
use vaultly.Queries.Secrets.{is_secret}

pub record RoleRow : Type 0 where
  pub workspace_id : ℕ
  pub project_id : ℕ
  pub environment_id : ℕ
  pub role : Role

-- `workspace_id = $1 AND user_id = $2`
abbrev pub is_member : ℕ → ℕ → MemberRow → Bool
is_member workspace_id user_id m = m.workspace_id == workspace_id && m.user_id == user_id

abbrev pub role_in : ℕ → ℕ → Db → Option Role
role_in workspace_id user_id d = elim (first (is_member workspace_id user_id) d.members) [
  | none ↦ none
  | some m ↦ some m.role
]

abbrev pub is_project : ℕ → ProjectRow → Bool
is_project id p = p.id == id && elim p.deleted_at [ none ↦ true | some _ ↦ false ]

abbrev pub found : {A : Type 0} → Db → Option A → Outcome DbError (A × Db)
found d none = err no_rows
found d (some a) = ok (a, d)

-- `GetWorkspaceRole`
unfoldable pub get_workspace_role : ℕ → ℕ → Stmt Role
get_workspace_role workspace_id user_id st d = found d (role_in workspace_id user_id d)

-- The join of a project with the caller's membership of its workspace.
abbrev pub project_role : ℕ → ℕ → ℕ → Db → Option RoleRow
project_role project_id environment_id user_id d = elim (first (is_project project_id) d.projects) [
  | none ↦ none
  | some p ↦ elim (role_in p.workspace_id user_id d) [
    | none ↦ none
    | some r ↦ some (record {
      workspace_id = p.workspace_id;
      project_id = p.id;
      environment_id = environment_id;
      role = r;
    })
  ]
]

-- `GetWorkspaceRoleByProject`
unfoldable pub get_workspace_role_by_project : ℕ → ℕ → Stmt RoleRow
get_workspace_role_by_project id user_id st d = found d (project_role id 0 user_id d)

abbrev pub environment_role : ℕ → ℕ → Db → Option RoleRow
environment_role id user_id d = elim (first (λ e. e.id == id) d.environments) [
  | none ↦ none
  | some e ↦ project_role e.project_id id user_id d
]

-- `GetWorkspaceRoleByEnvironment`
unfoldable pub get_workspace_role_by_environment : ℕ → ℕ → Stmt RoleRow
get_workspace_role_by_environment id user_id st d = found d (environment_role id user_id d)

abbrev pub secret_role : ℕ → ℕ → Db → Option RoleRow
secret_role id user_id d = elim (first (is_secret id) d.secrets) [
  | none ↦ none
  | some s ↦ project_role s.project_id s.environment_id user_id d
]

-- `GetWorkspaceRoleBySecret`
unfoldable pub get_workspace_role_by_secret : ℕ → ℕ → Stmt RoleRow
get_workspace_role_by_secret id user_id st d = found d (secret_role id user_id d)

-- A token is found in a deleted project too, so that it can be revoked.
abbrev pub token_role : ℕ → ℕ → Db → Option RoleRow
token_role id user_id d = elim (first (λ t. t.id == id) d.tokens) [
  | none ↦ none
  | some t ↦ elim (first (λ p. p.id == t.project_id) d.projects) [
    | none ↦ none
    | some p ↦ elim (role_in p.workspace_id user_id d) [
      | none ↦ none
      | some r ↦ some (record {
        workspace_id = p.workspace_id;
        project_id = p.id;
        environment_id = t.environment_id;
        role = r;
      })
    ]
  ]
]

-- `GetWorkspaceRoleByToken`
unfoldable pub get_workspace_role_by_token : ℕ → ℕ → Stmt RoleRow
get_workspace_role_by_token id user_id st d = found d (token_role id user_id d)
