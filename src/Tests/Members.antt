-- ===== src/Tests/Members.antt =====
-- Members and promotions at concrete inputs (backend/internal/service/workspace.go,
-- backend/internal/service/promotion.go).
use vaultly.Prelude.{◌≤◌, refl, [], codes, arith}
use vaultly.Domain.{owner, viewer, rank, valid, at_least}
use vaultly.World.{run, on_error, translate_db_error, ◌>>=◌, pure, raise, record_event, enqueue}
use vaultly.Queries.Roles.{get_workspace_role}
use vaultly.Queries.Members.{owners, get_user_by_email, add_workspace_member}
use vaultly.Validate.{trim, matches_email, validate_email, is_space}
use vaultly.Authz.{require_workspace_role, require_role}
use vaultly.Workspaces.{WorkspaceMember, add_member, update_member_role, remove_member}
use vaultly.Workspaces.Owners.{owners-update_member_role, owners-remove_member}
use vaultly.Workspaces.Adding.{Granted, add_member-Granted}
use vaultly.Tests.World.{start, people, deps, actor}

owners-update_member_role_example :
    1 ≤ owners 1 (update_member_role 1 1 1 viewer actor (start people)).1.db.members
owners-update_member_role_example =
    owners-update_member_role 1 1 1 actor (start people) (refl, (refl, tt)) 1 (omega arith) viewer

owners-remove_member_example : 1 ≤ owners 1 (remove_member 1 1 1 actor (start people)).1.db.members
owners-remove_member_example =
    owners-remove_member 1 1 1 actor (start people) (refl, (refl, tt)) 1 (omega arith)

abbrev demoted : WorkspaceMember
demoted = record { workspace_id = 1; user_id = 2; email = codes "d@b.c"; name = []; role = owner }

add_member-Granted_example :
    Granted deps.unicode 1 1
      (validate_email deps.unicode (codes "d@b.c") []).0
      owner
      (start people).db
      demoted
      (add_member deps.unicode 1 1 (codes "d@b.c") owner actor (start people)).1.db
unfolding add_member validate_email trim is_space matches_email get_user_by_email
    add_workspace_member require_workspace_role get_workspace_role require_role rank valid at_least
    run on_error translate_db_error ◌>>=◌ pure raise record_event enqueue
add_member-Granted_example =
    add_member-Granted deps.unicode 1 1 (codes "d@b.c") owner actor (start people) demoted refl
