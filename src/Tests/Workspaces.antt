-- ===== src/Tests/Workspaces.antt =====
-- A workspace that is created (backend/internal/service/workspace.go).
use vaultly.Prelude.{refl, true, codes}
use vaultly.Domain.{owner, valid, add}
use vaultly.World.{
  ◌>>=◌, on_error, run, in_tx, enqueue, pure, raise, record_event, translate_db_error,
}
use vaultly.Validate.{
  Unicode, slugify, validate_name, is_space, hyphenate, has_printable_content, trim,
}
use vaultly.Queries.Accounts.{WorkspaceWithRole, create_workspace, workspace_slug_exists}
use vaultly.Queries.Members.{add_workspace_member}
use vaultly.Workspaces.{base_slug, create_of_user, create_workspace_tx, unique_workspace_slug}
use vaultly.Workspaces.Founding.{IsFounded, stored_name, create_of_user-IsFounded}
use vaultly.Tests.World.{start, people, deps, actor}

abbrev unicode : Unicode
unicode = record { lower = λ c. c; is_graphic = λ c. true }

abbrev founded : WorkspaceWithRole
founded = record {
  row = record {
    id = 102;
    name = codes "team";
    slug = codes "team";
    owner_id = 2;
    created_at = 2;
    updated_at = 2;
  };
  role = owner;
}

create_of_user-IsFounded_example :
    IsFounded 2
      (stored_name unicode deps.uuid_string 2 (codes "team ") actor)
      (base_slug unicode (stored_name unicode deps.uuid_string 2 (codes "team ") actor))
      people
      founded
      (create_of_user unicode deps.uuid_string 2 (codes "team ") actor (start people)).1.db
unfolding create_of_user ◌>>=◌ on_error run slugify validate_name is_space has_printable_content
    workspace_slug_exists in_tx add create_workspace_tx create_workspace add_workspace_member
    hyphenate trim enqueue pure raise record_event translate_db_error unique_workspace_slug valid
create_of_user-IsFounded_example =
    create_of_user-IsFounded unicode deps.uuid_string 2 (codes "team ") actor (start people) founded
      refl
