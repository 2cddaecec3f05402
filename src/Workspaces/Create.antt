-- ===== src/Workspaces/Create.antt =====
-- The operations on workspaces themselves (backend/internal/service/workspace.go). The text of an
-- identifier is a parameter.
use vaultly.Prelude.{
  Option, none, first, ltb, ◌==◌, if◌then◌else◌, sort_with, ℕ, suc, zero, true, false, List, [],
  ◌∷◌, ◌++◌, some, Text, codes, take, decimal,
}
use vaultly.Domain.{Role, viewer, owner, error_or_nil, workspace_created}
use vaultly.World.{
  Svc, Stmt, ok, pure, ◌>>=◌, ◌>>◌, check, run, translated, in_tx, record_event, Actor, Meta,
}
use vaultly.Db.{UserRow, MemberRow}
use vaultly.Authz.{require_workspace_role}
use vaultly.Validate.{Unicode, slugify, validate_name}
use vaultly.Queries.Members.{add_workspace_member}
use vaultly.Queries.Accounts.{
  create_workspace, workspace_slug_exists, WorkspaceWithRole, list_workspaces_for_user,
  get_workspace_for_user,
}
use vaultly.Sessions.{new_uuid}

-- `WorkspaceService.List`
unfoldable pub list_of_user : ℕ → Svc (List WorkspaceWithRole)
list_of_user user_id = translated (run (list_workspaces_for_user user_id))

-- `WorkspaceService.Get`
unfoldable pub get_of_user : ℕ → ℕ → Svc WorkspaceWithRole
get_of_user user_id workspace_id = translated (run (get_workspace_for_user workspace_id user_id))

abbrev or_workspace : Text → Text
or_workspace [] = codes "workspace"
or_workspace (c ∷ s) = c ∷ s

abbrev pub base_slug : Unicode → Text → Text
base_slug u name = or_workspace (slugify u name)

module _ (uuid_string : ℕ → Text) (base : Text) where
  -- The loop over the candidates, of which `left` are left; then a random suffix.
  abbrev pub try_slugs : (left : ℕ) → Text → ℕ → Svc Text
  try_slugs zero candidate number =
      new_uuid >>= λ id. pure (base ++ (codes "-" ++ take 8 (uuid_string id)))
  try_slugs (suc left) candidate number =
      translated (run (workspace_slug_exists candidate)) >>= λ exists. elim exists [
        | true ↦ try_slugs left (base ++ (codes "-" ++ decimal 10 number)) (suc number)
        | false ↦ pure candidate
      ]

-- `uniqueWorkspaceSlug`: the attempts from 2 to 99.
unfoldable pub unique_workspace_slug : Unicode → (ℕ → Text) → Text → Svc Text
unique_workspace_slug u uuid_string name =
    try_slugs uuid_string (base_slug u name) 98 (base_slug u name) 2

-- The transaction of `Create`.
unfoldable pub create_workspace_tx : ℕ → Text → Text → Svc WorkspaceWithRole
create_workspace_tx user_id name slug = do
  created ← translated (run (create_workspace name slug user_id))
  translated (run (add_workspace_member created.id user_id owner))
  pure (record { row = created; role = owner })

-- `WorkspaceService.Create`
unfoldable pub create_of_user : Unicode → (ℕ → Text) → ℕ → Text → Actor → Svc WorkspaceWithRole
unfolding create_workspace_tx unique_workspace_slug
create_of_user u uuid_string user_id name actor = do
  let (name', v) = validate_name u "name" name []
  check (error_or_nil v)
  slug ← unique_workspace_slug u uuid_string name'
  workspace ← in_tx (create_workspace_tx user_id name' slug)
  record_event (record {
    workspace_id = workspace.row.id;
    actor = actor;
    action = workspace_created;
    resource_type = "workspace";
    resource_id = some workspace.row.id;
    metadata = ("name", Meta.text workspace.row.name) ∷ [];
  })
  pure workspace

-- A row of `ListWorkspaceMembers`, which is also what `ListMembers` returns of it.
pub record MemberOfList : Type 0 where
  pub workspace_id : ℕ
  pub user_id : ℕ
  pub email : Text
  pub name : Text
  pub role : Role
  pub created_at : ℕ

abbrev joined : MemberRow → Option UserRow → List MemberOfList → List MemberOfList
joined m none rest = rest
joined m (some u) rest =
    record {
      workspace_id = m.workspace_id;
      user_id = m.user_id;
      email = u.email;
      name = u.name;
      role = m.role;
      created_at = m.created_at;
    }
    ∷ rest

abbrev members_of : ℕ → List UserRow → List MemberRow → List MemberOfList
members_of workspace_id users [] = []
members_of workspace_id users (m ∷ ms) =
    let rest = members_of workspace_id users ms in
    if m.workspace_id == workspace_id
    then joined m (first (λ u. u.id == m.user_id) users) rest
    else rest

-- `ListWorkspaceMembers`
unfoldable pub list_workspace_members : ℕ → Stmt (List MemberOfList)
list_workspace_members workspace_id st d = ok (
  sort_with (λ m n. ltb m.created_at n.created_at) (members_of workspace_id d.users d.members),
  d,
)

-- `ListMembers`
unfoldable pub list_members : ℕ → ℕ → Svc (List MemberOfList)
list_members user_id workspace_id = do
  require_workspace_role user_id workspace_id viewer
  translated (run (list_workspace_members workspace_id))
