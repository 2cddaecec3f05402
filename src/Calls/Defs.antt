-- ===== src/Calls/Defs.antt =====
-- The calls that the handlers make of `SecretService` and `PromotionService`, and sequences of them.
use vaultly.Prelude.{ℕ, Option, List, [], ◌∷◌, Text, ℤ}
use vaultly.Domain.{Role, viewer, member}
use vaultly.Db.{Db}
use vaultly.World.{Svc, World, pure, ◌>>◌, Actor}
use vaultly.Queries.Roles.{environment_role, secret_role, project_role}
use vaultly.Authz.Denial.{role_of_row}
use vaultly.Secrets.{
  Deps, CreateInput, UpdateInput, create, update, update_description, delete, rollback, list,
  reveal, get, list_versions, reveal_version,
}
use vaultly.Promotion.{PromoteInput, promote}

pub data Call : Type 0 where
  create_call : CreateInput → Call
  update_call : UpdateInput → Call
  describe_call : ℕ → Text → Call
  delete_call : ℕ → Actor → Call
  rollback_call : ℕ → ℤ → Actor → Call
  promote_call : PromoteInput → Call
  list_call : ℕ → Call
  get_call : ℕ → Call
  list_versions_call : ℕ → Call
  reveal_call : ℕ → Actor → Call
  reveal_version_call : ℕ → ℤ → Actor → Call

-- One call by a user; what it returns is left out.
unfoldable pub serve : Deps → ℕ → Call → Svc (Unit {0})
serve deps user (create_call i) = create deps user i >> pure tt
serve deps user (update_call i) = update deps user i >> pure tt
serve deps user (describe_call id t) = update_description user id t >> pure tt
serve deps user (delete_call id a) = delete user id a >> pure tt
serve deps user (rollback_call id v a) = rollback user id v a >> pure tt
serve deps user (promote_call i) = promote deps user i >> pure tt
serve deps user (list_call id) = list user id >> pure tt
serve deps user (get_call id) = get user id >> pure tt
serve deps user (list_versions_call id) = list_versions user id >> pure tt
serve deps user (reveal_call id a) = reveal deps user id a >> pure tt
serve deps user (reveal_version_call id v a) = reveal_version deps user id v a >> pure tt

-- The calls of several users, one after the other, whatever each of them returns.
unfoldable pub serve_all : Deps → List (ℕ × Call) → World → World
unfolding serve
serve_all deps [] w = w
serve_all deps ((user, c) ∷ cs) w = serve_all deps cs (serve deps user c w).1

-- The role that a call needs: a value is for members, its metadata for viewers too.
abbrev pub minimum_role : Call → Role
minimum_role (list_call _) = viewer
minimum_role (get_call _) = viewer
minimum_role (list_versions_call _) = viewer
minimum_role _ = member

-- The caller's role in the workspace of what the call names.
abbrev pub role_for : ℕ → Call → Db → Option Role
role_for user (create_call i) d = role_of_row (environment_role i.environment_id user d)
role_for user (update_call i) d = role_of_row (secret_role i.secret_id user d)
role_for user (describe_call id _) d = role_of_row (secret_role id user d)
role_for user (delete_call id _) d = role_of_row (secret_role id user d)
role_for user (rollback_call id _ _) d = role_of_row (secret_role id user d)
role_for user (promote_call i) d = role_of_row (project_role i.project_id 0 user d)
role_for user (list_call id) d = role_of_row (environment_role id user d)
role_for user (get_call id) d = role_of_row (secret_role id user d)
role_for user (list_versions_call id) d = role_of_row (secret_role id user d)
role_for user (reveal_call id _) d = role_of_row (secret_role id user d)
role_for user (reveal_version_call id _ _) d = role_of_row (secret_role id user d)
