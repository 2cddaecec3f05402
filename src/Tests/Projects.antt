-- ===== src/Tests/Projects.antt =====
-- A project that is created (backend/internal/service/project.go).
use vaultly.Prelude.{ℕ, true, ◌==◌, if◌then◌else◌, refl, [], codes}
use vaultly.World.{
  ◌>>=◌, on_error, run, in_tx, enqueue, pure, raise, record_event, translate_db_error,
}
use vaultly.Domain.{valid, at_least, add, rank}
use vaultly.Authz.{require_workspace_role, require_role}
use vaultly.Queries.Roles.{get_workspace_role}
use vaultly.Queries.Projects.{project_slug_exists, create_environment, create_project}
use vaultly.Projects.{Project, create_in_workspace, create_project_tx, project_of}
use vaultly.Projects.Creation.{
  IsCreated, create_in_workspace-IsCreated, stored_name, stored_slug, stored_description,
}
use vaultly.Validate.{
  Unicode, slugify, validate_name, is_space, matches_slug, validate_description, hyphenate,
  has_printable_content, matches_slug_from, trim,
}
use vaultly.Tests.World.{start, people, actor}

-- The upper-case letters that the test has.
abbrev lower : ℕ → ℕ
lower c = if c == b'W' then b'w' else if c == b'A' then b'a' else c

abbrev unicode : Unicode
unicode = record { lower = lower; is_graphic = λ c. true }

abbrev web_app : Project
web_app = record {
  id = 103;
  workspace_id = 1;
  name = codes "Web App";
  slug = codes "web-app";
  description = codes "d";
  created_at = 3;
  updated_at = 3;
}

create_in_workspace-IsCreated_example :
    IsCreated 1
      (stored_name unicode 1 1 (codes " Web App") [] (codes "d") actor)
      (stored_slug unicode 1 1 (codes " Web App") [] (codes "d") actor)
      (stored_description unicode 1 1 (codes " Web App") [] (codes "d") actor)
      (start people).db
      web_app
      (create_in_workspace unicode 1 1 (codes " Web App") [] (codes "d") actor (start people)).1.db
unfolding create_in_workspace ◌>>=◌ require_workspace_role on_error run get_workspace_role
    require_role valid at_least slugify validate_name is_space matches_slug validate_description
    has_printable_content project_slug_exists in_tx add rank create_project_tx project_of
    create_environment create_project hyphenate matches_slug_from trim enqueue pure raise
    record_event translate_db_error
create_in_workspace-IsCreated_example =
    create_in_workspace-IsCreated unicode 1 1 (codes " Web App") [] (codes "d") actor (start people)
      web_app refl
