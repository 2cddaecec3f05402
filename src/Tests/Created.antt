-- ===== src/Tests/Created.antt =====
-- A creation at a concrete input (backend/internal/service/secret.go).
use vaultly.Prelude.{◌≡◌, refl, some, [], ◌∷◌, codes}
use vaultly.Domain.{owner, rank, valid, at_least}
use vaultly.World.{
  ok, run, on_error, translate_db_error, ◌>>=◌, pure, lift, raise, random_bytes, in_tx,
  record_event,
}
use vaultly.Queries.Roles.{RoleRow, get_workspace_role_by_secret, get_workspace_role_by_environment}
use vaultly.Queries.Secrets.{
  get_secret, create_secret, secret_key_exists, bump_secret_version_unchecked,
}
use vaultly.Queries.Versions.{create_secret_version, get_current_secret_version}
use vaultly.Crypto.{encrypt, wrap, unwrap, decrypt, secret_aad}
use vaultly.Crypto.Toy.{toy-IsAead}
use vaultly.Authz.{require_environment_role, require_secret_role, require_role}
use vaultly.Validate.{
  trim, is_space, matches_secret_key, validate_secret_key, validate_secret_value,
  validate_description,
}
use vaultly.Secrets.{
  Secret, CreateInput, create, create_tx, add_version, reveal, load_secret, decrypt_version,
  from_row,
}
use vaultly.Secrets.Created.{reveal-create}
use vaultly.Secrets.Readable.{reveal_returns-create}
use vaultly.Tests.World.{start, tables, tables-HasHistory, secret_row, deps, actor}

abbrev input : CreateInput
input = record {
  environment_id = 1;
  key = codes " L ";
  value = 44 ∷ [];
  description = [];
  actor = actor;
}

abbrev made : Secret
made =
    let s = from_row secret_row in
    record s { id = 106; key = codes "L"; created_at = 6; updated_at = 6 }

abbrev shown : Secret
shown = record made { updated_at = 8; value = some (44 ∷ []) }

reveal-create_example : shown.value ≡ some (44 ∷ [])
unfolding create create_tx trim is_space matches_secret_key validate_secret_key
    validate_secret_value validate_description create_secret secret_key_exists
    bump_secret_version_unchecked require_environment_role get_workspace_role_by_environment reveal
    get_current_secret_version decrypt_version decrypt unwrap require_secret_role
    get_workspace_role_by_secret require_role rank valid at_least load_secret get_secret encrypt
    wrap secret_aad add_version create_secret_version in_tx run on_error translate_db_error ◌>>=◌
    pure lift raise random_bytes record_event
reveal-create_example =
    reveal-create deps toy-IsAead 1 1 input actor (start tables)
      (create deps 1 input (start tables)).1 made shown tables-HasHistory refl refl refl

abbrev scope : RoleRow
scope = record { workspace_id = 1; project_id = 1; environment_id = 1; role = owner }

reveal_returns-create_example :
    (r : Secret) × ((reveal deps 1 106 actor (create deps 1 input (start tables)).1).0 ≡ ok r)
    × (r.value ≡ some (44 ∷ []))
    × ((reveal deps 1 106 actor (create deps 1 input (start tables)).1).1.db
        ≡ (create deps 1 input (start tables)).1.db)
unfolding create create_tx trim is_space matches_secret_key validate_secret_key
    validate_secret_value validate_description create_secret secret_key_exists
    bump_secret_version_unchecked require_environment_role get_workspace_role_by_environment
    require_role rank valid at_least encrypt wrap secret_aad add_version create_secret_version in_tx
    run on_error translate_db_error ◌>>=◌ pure lift raise random_bytes record_event
reveal_returns-create_example =
    reveal_returns-create deps toy-IsAead 1 1 input actor (start tables)
      (create deps 1 input (start tables)).1 made scope tables-HasHistory refl refl (λ t. refl) refl
      refl
