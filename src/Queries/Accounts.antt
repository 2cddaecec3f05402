-- ===== src/Queries/Accounts.antt =====
-- The statements on users, sessions and new workspaces (backend/internal/db/sqlcgen/users.sql.go,
-- backend/internal/db/sqlcgen/workspaces.sql.go).
use vaultly.Prelude.{
  ℕ, Bool, true, false, ◌&&◌, Option, none, some, List, [], ◌∷◌, Text, text_eq, map, first, any,
  update_where, ltb, ◌==◌, if◌then◌else◌,
}
use vaultly.Domain.{Role}
use vaultly.Db.{Bytes, UserRow, WorkspaceRow, RefreshRow, MemberRow}
use vaultly.World.{ok, err, no_rows, unique_violation, foreign_key_violation, Stmt, Stamp}
use vaultly.Validate.{Unicode}

-- A user without the password's hash: `domain.User`, and the rows of `CreateUser` and `GetUserByID`.
pub record User : Type 0 where
  pub id : ℕ
  pub email : Text
  pub name : Text
  pub created_at : ℕ
  pub updated_at : ℕ

unfoldable pub user_of : UserRow → User
user_of r = record {
  id = r.id;
  email = r.email;
  name = r.name;
  created_at = r.created_at;
  updated_at = r.updated_at;
}

abbrev pub new_user : Text → Text → Text → Stamp → UserRow
new_user email password_hash name st = record {
  id = st.uuid;
  email = email;
  password_hash = password_hash;
  name = name;
  created_at = st.time;
  updated_at = st.time;
}

-- Addresses are compared in lower case (`citext`).
abbrev pub has_email : Unicode → Text → UserRow → Bool
has_email u email r = text_eq (map u.lower r.email) (map u.lower email)

-- `CreateUser`
unfoldable pub create_user : Unicode → Text → Text → Text → Stmt User
unfolding user_of
create_user u email password_hash name st d =
    if any (λ r. r.id == st.uuid) d.users
    then err unique_violation
    else if any (has_email u email) d.users
    then err unique_violation
    else ok (
      user_of (new_user email password_hash name st),
      record d { users = new_user email password_hash name st ∷ d.users },
    )

-- `GetUserByID`
unfoldable pub get_user_by_id : ℕ → Stmt User
unfolding user_of
get_user_by_id id st d = elim (first (λ r. r.id == id) d.users) [
  | none ↦ err no_rows
  | some r ↦ ok (user_of r, d)
]

-- `EmailExists`
unfoldable pub email_exists : Unicode → Text → Stmt Bool
email_exists u email st d = ok (any (has_email u email) d.users, d)

pub record CreateRefreshTokenParams : Type 0 where
  pub user_id : ℕ
  pub token_hash : Bytes
  pub expires_at : ℕ
  pub user_agent : Text
  pub ip_address : Option ℕ

abbrev pub new_refresh_token : CreateRefreshTokenParams → Stamp → RefreshRow
new_refresh_token p st = record {
  id = st.uuid;
  user_id = p.user_id;
  token_hash = p.token_hash;
  expires_at = p.expires_at;
  revoked_at = none;
  created_at = st.time;
  user_agent = p.user_agent;
  ip_address = p.ip_address;
}

-- `CreateRefreshToken`: digests are unique, and the user exists.
unfoldable pub create_refresh_token : CreateRefreshTokenParams → Stmt RefreshRow
create_refresh_token p st d =
    if any (λ u. u.id == p.user_id) d.users
    then (if any (λ r. r.id == st.uuid) d.refresh_tokens
        then err unique_violation
        else if any (λ r. text_eq r.token_hash p.token_hash) d.refresh_tokens
        then err unique_violation
        else ok (
          new_refresh_token p st,
          record d { refresh_tokens = new_refresh_token p st ∷ d.refresh_tokens },
        ))
    else err foreign_key_violation

abbrev pub is_live : RefreshRow → Bool
is_live r = elim r.revoked_at [ none ↦ true | some _ ↦ false ]

abbrev pub is_usable : Bytes → ℕ → RefreshRow → Bool
is_usable hash now r = text_eq r.token_hash hash && is_live r && ltb now r.expires_at

-- `GetActiveRefreshToken`
unfoldable pub get_active_refresh_token : Bytes → Stmt RefreshRow
get_active_refresh_token hash st d = elim (first (is_usable hash st.time) d.refresh_tokens) [
  | none ↦ err no_rows
  | some r ↦ ok (r, d)
]

abbrev pub revoked : ℕ → RefreshRow → RefreshRow
revoked now r = record r { revoked_at = some now }

-- `RevokeRefreshToken`
unfoldable pub revoke_refresh_token : Bytes → Stmt (Unit {0})
revoke_refresh_token hash st d = ok (
  tt,
  record d {
    refresh_tokens =
        update_where (λ r. text_eq r.token_hash hash && is_live r) (revoked st.time)
          d.refresh_tokens;
  },
)

-- `RevokeAllUserRefreshTokens`
unfoldable pub revoke_all_user_refresh_tokens : ℕ → Stmt (Unit {0})
revoke_all_user_refresh_tokens user_id st d = ok (
  tt,
  record d {
    refresh_tokens =
        update_where (λ r. r.user_id == user_id && is_live r) (revoked st.time) d.refresh_tokens;
  },
)

abbrev pub new_workspace : Text → Text → ℕ → Stamp → WorkspaceRow
new_workspace name slug owner_id st = record {
  id = st.uuid;
  name = name;
  slug = slug;
  owner_id = owner_id;
  created_at = st.time;
  updated_at = st.time;
}

-- `CreateWorkspace`
unfoldable pub create_workspace : Text → Text → ℕ → Stmt WorkspaceRow
create_workspace name slug owner_id st d =
    if any (λ u. u.id == owner_id) d.users
    then (if any (λ w. w.id == st.uuid) d.workspaces
        then err unique_violation
        else if any (λ w. text_eq w.slug slug) d.workspaces
        then err unique_violation
        else ok (
          new_workspace name slug owner_id st,
          record d { workspaces = new_workspace name slug owner_id st ∷ d.workspaces },
        ))
    else err foreign_key_violation

-- `WorkspaceSlugExists`
unfoldable pub workspace_slug_exists : Text → Stmt Bool
workspace_slug_exists slug st d = ok (any (λ w. text_eq w.slug slug) d.workspaces, d)

pub record WorkspaceWithRole : Type 0 where
  pub row : WorkspaceRow
  pub role : Role

abbrev place_workspace : WorkspaceWithRole → List WorkspaceWithRole → List WorkspaceWithRole
place_workspace r [] = r ∷ []
place_workspace r (q ∷ qs) =
    if ltb r.row.created_at q.row.created_at then q ∷ place_workspace r qs else r ∷ q ∷ qs

abbrev joined_role :
    WorkspaceRow → Option MemberRow → List WorkspaceWithRole → List WorkspaceWithRole
joined_role w none ws = ws
joined_role w (some m) ws = place_workspace (record { row = w; role = m.role }) ws

-- The join with the memberships of the user, `ORDER BY created_at DESC`.
abbrev workspaces_of : ℕ → List MemberRow → List WorkspaceRow → List WorkspaceWithRole
workspaces_of user_id ms [] = []
workspaces_of user_id ms (w ∷ ws) =
    joined_role w (first (λ m. m.workspace_id == w.id && m.user_id == user_id) ms)
      (workspaces_of user_id ms ws)

-- `ListWorkspacesForUser`
unfoldable pub list_workspaces_for_user : ℕ → Stmt (List WorkspaceWithRole)
list_workspaces_for_user user_id st d = ok (workspaces_of user_id d.members d.workspaces, d)

abbrev with_role_of : Option WorkspaceRow → Option MemberRow → Option WorkspaceWithRole
with_role_of (some w) (some m) = some (record { row = w; role = m.role })
with_role_of _ _ = none

-- `GetWorkspaceForUser`
unfoldable pub get_workspace_for_user : ℕ → ℕ → Stmt WorkspaceWithRole
get_workspace_for_user id user_id st d =
    elim (with_role_of (first (λ w. w.id == id) d.workspaces)
      (first (λ m. m.workspace_id == id && m.user_id == user_id) d.members)) [
        | none ↦ err no_rows
        | some w ↦ ok (w, d)
      ]
