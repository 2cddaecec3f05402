-- ===== src/Workspaces/Defs.antt =====
-- The operations on members (backend/internal/service/workspace.go).
use vaultly.Prelude.{
  ℕ, Bool, not, ◌&&◌, none, some, List, [], ◌∷◌, String, Text, codes, leb, ◌==◌, if◌then◌else◌,
}
use vaultly.Domain.{
  Role, owner, admin, viewer, Error, Action, add, error_or_nil, new_validation_error, valid,
  at_least, is_owner, member_added, member_removed, member_role_updated,
}
use vaultly.World.{
  Svc, DbError, no_rows, pure, ◌>>=◌, ◌>>◌, check, run, on_error, translated, translate_db_error,
  record_event, Actor, Event, Meta,
}
use vaultly.Queries.Roles.{get_workspace_role}
use vaultly.Queries.Members.{
  add_workspace_member, update_workspace_member_role, remove_workspace_member,
  count_workspace_owners, get_user_by_email,
}
use vaultly.Validate.{Unicode, validate_email}
use vaultly.Authz.{require_workspace_role}

pub record WorkspaceMember : Type 0 where
  pub workspace_id : ℕ
  pub user_id : ℕ
  pub email : Text
  pub name : Text
  pub role : Role

abbrev pub role_text : Role → Text
role_text Role.owner = codes "owner"
role_text Role.admin = codes "admin"
role_text Role.member = codes "member"
role_text Role.viewer = codes "viewer"
role_text (Role.unknown s) = codes s

abbrev pub member_event : ℕ → Actor → Action → ℕ → List (String × Meta) → Event
member_event workspace_id actor action member_id metadata = record {
  workspace_id = workspace_id;
  actor = actor;
  action = action;
  resource_type = "member";
  resource_id = some member_id;
  metadata = metadata;
}

-- `ensureNotLastOwner`
unfoldable pub ensure_not_last_owner : ℕ → Svc (Unit {0})
ensure_not_last_owner workspace_id = do
  count ← translated (run (count_workspace_owners workspace_id))
  check (if leb count 1 then some Error.conflict else none)

-- The two tests that forbid an admin to make an owner.
abbrev pub grants_too_much : Role → Role → Bool
grants_too_much role actual = is_owner role && not (at_least actual owner)

abbrev pub no_account : DbError → Error
no_account no_rows = new_validation_error "email" "no account exists with this address"
no_account e = translate_db_error e

-- `AddMember`
unfoldable pub add_member : Unicode → ℕ → ℕ → Text → Role → Actor → Svc WorkspaceMember
add_member u user_id workspace_id email role actor = do
  scope ← require_workspace_role user_id workspace_id admin
  let (email', v) = validate_email u email []
  let v1 = if valid role then v else add "role" "must be one of owner, admin, member or viewer" v
  check (error_or_nil v1)
  check (if grants_too_much role scope.role then some Error.forbidden else none)
  invitee ← on_error no_account (run (get_user_by_email u email'))
  translated (run (add_workspace_member workspace_id invitee.id role))
  record_event (
      member_event workspace_id actor member_added invitee.id
        (("email", Meta.text invitee.email) ∷ ("role", Meta.text (role_text role)) ∷ []))
  pure (record {
    workspace_id = workspace_id;
    user_id = invitee.id;
    email = invitee.email;
    name = invitee.name;
    role = role;
  })

-- `UpdateMemberRole`
unfoldable pub update_member_role : ℕ → ℕ → ℕ → Role → Actor → Svc (Unit {0})
unfolding ensure_not_last_owner
update_member_role user_id workspace_id member_id role actor = do
  scope ← require_workspace_role user_id workspace_id admin
  check (
      if valid role
      then none
      else some (new_validation_error "role" "must be one of owner, admin, member or viewer"))
  check (if grants_too_much role scope.role then some Error.forbidden else none)
  current ← translated (run (get_workspace_role workspace_id member_id))
  if is_owner current && not (is_owner role) then ensure_not_last_owner workspace_id else pure tt
  translated (run (update_workspace_member_role workspace_id member_id role))
  record_event (
      member_event workspace_id actor member_role_updated member_id
        (("from", Meta.text (role_text current)) ∷ ("to", Meta.text (role_text role)) ∷ []))

-- `RemoveMember`
unfoldable pub remove_member : ℕ → ℕ → ℕ → Actor → Svc (Unit {0})
unfolding ensure_not_last_owner
remove_member user_id workspace_id member_id actor = do
  require_workspace_role user_id workspace_id (if user_id == member_id then viewer else admin)
  current ← translated (run (get_workspace_role workspace_id member_id))
  if is_owner current then ensure_not_last_owner workspace_id else pure tt
  translated (run (remove_workspace_member workspace_id member_id))
  record_event (member_event workspace_id actor member_removed member_id [])
