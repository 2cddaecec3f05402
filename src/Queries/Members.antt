-- ===== src/Queries/Members.antt =====
-- The statements on members, and the user that an email names
-- (backend/internal/db/sqlcgen/workspaces.sql.go, backend/internal/db/sqlcgen/users.sql.go).
use vaultly.Prelude.{
  ℕ, suc, not, ◌&&◌, none, some, List, [], ◌∷◌, Text, text_eq, map, first, any, keep, update_where,
  ◌==◌, if◌then◌else◌,
}
use vaultly.Domain.{Role, valid, is_owner}
use vaultly.Db.{MemberRow, UserRow}
use vaultly.World.{ok, err, no_rows, foreign_key_violation, check_violation, Stmt, Stamp}
use vaultly.Queries.Roles.{is_member}
use vaultly.Validate.{Unicode}

abbrev pub with_role : Role → MemberRow → MemberRow
with_role r m = record m { role = r }

abbrev pub new_member : ℕ → ℕ → Role → Stamp → MemberRow
new_member workspace_id user_id role st = record {
  workspace_id = workspace_id;
  user_id = user_id;
  role = role;
  created_at = st.time;
}

-- `AddWorkspaceMember`: a member that is there gets the new role.
unfoldable pub add_workspace_member : ℕ → ℕ → Role → Stmt (Unit {0})
add_workspace_member workspace_id user_id role st d =
    if valid role
    then (if any (is_member workspace_id user_id) d.members
        then ok (
          tt,
          record d {
            members = update_where (is_member workspace_id user_id) (with_role role) d.members;
          },
        )
        else (if any (λ w. w.id == workspace_id) d.workspaces && any (λ u. u.id == user_id) d.users
            then ok (tt, record d { members = new_member workspace_id user_id role st ∷ d.members })
            else err foreign_key_violation))
    else err check_violation

-- `UpdateWorkspaceMemberRole`
unfoldable pub update_workspace_member_role : ℕ → ℕ → Role → Stmt (Unit {0})
update_workspace_member_role workspace_id user_id role st d =
    if any (is_member workspace_id user_id) d.members && not (valid role)
    then err check_violation
    else ok (
      tt,
      record d {
        members = update_where (is_member workspace_id user_id) (with_role role) d.members;
      },
    )

-- `RemoveWorkspaceMember`
unfoldable pub remove_workspace_member : ℕ → ℕ → Stmt (Unit {0})
remove_workspace_member workspace_id user_id st d =
    ok (tt, record d { members = keep (λ m. not (is_member workspace_id user_id m)) d.members })

abbrev pub owners : ℕ → List MemberRow → ℕ
owners workspace_id [] = 0
owners workspace_id (m ∷ ms) =
    let rest = owners workspace_id ms in
    if m.workspace_id == workspace_id && is_owner m.role then suc rest else rest

-- `CountWorkspaceOwners`
unfoldable pub count_workspace_owners : ℕ → Stmt ℕ
count_workspace_owners workspace_id st d = ok (owners workspace_id d.members, d)

-- `GetUserByEmail`: the column is of type `citext`, which compares in lower case.
unfoldable pub get_user_by_email : Unicode → Text → Stmt UserRow
get_user_by_email u email st d =
    elim (first (λ r. text_eq (map u.lower r.email) (map u.lower email)) d.users) [
      | none ↦ err no_rows
      | some r ↦ ok (r, d)
    ]
