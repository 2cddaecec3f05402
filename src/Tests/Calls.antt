-- ===== src/Tests/Calls.antt =====
-- Calls on secrets at concrete inputs (backend/internal/service/secret.go).
use vaultly.Prelude.{
  ℕ, ◌≡◌, ◌⊎◌, suc, refl, true, false, some, List, [], ◌∷◌, pos, is_positive, is_nat,
}
use vaultly.Domain.{Error, viewer, rank, valid, at_least}
use vaultly.Authz.Denial.{Denies}
use vaultly.World.{
  World, ok, run, on_error, translate_db_error, ◌>>=◌, pure, lift, raise, random_bytes, in_tx,
  record_event,
}
use vaultly.Queries.Roles.{get_workspace_role_by_secret}
use vaultly.Queries.Secrets.{get_secret, bump_secret_version}
use vaultly.Queries.Versions.{create_secret_version, get_current_secret_version}
use vaultly.Crypto.{encrypt, wrap, unwrap, decrypt, secret_aad}
use vaultly.Crypto.Toy.{toy-IsAead}
use vaultly.Authz.{require_secret_role, require_role}
use vaultly.Validate.{validate_secret_value}
use vaultly.Secrets.{
  Secret, UpdateInput, update, update_tx, bump, add_version, reveal, load_secret, decrypt_version,
  get, from_row,
}
use vaultly.Secrets.Numbers.{version_of}
use vaultly.Secrets.History.{HasHistory, Grows}
use vaultly.Secrets.Lifecycle.{update-Version, reveal-update}
use vaultly.Calls.{Call, update_call, reveal_call, delete_call, get_call, serve, serve_all}
use vaultly.Calls.Invariant.{serve_all-HasHistory, serve_all-Grows}
use vaultly.Calls.Access.{serve-Denies}
use vaultly.Calls.Atomicity.{serve-eq-err}
use vaultly.Secrets.{SecretVersion, reveal_version, rollback, rollback_tx, version_from_row}
use vaultly.Queries.Versions.{get_secret_version}
use vaultly.Queries.Secrets.{bump_secret_version_unchecked}
use vaultly.Secrets.Restored.{reveal-rollback}
use vaultly.Tests.World.{
  version_row, changed_tables, changed_tables-HasHistory, start, tables, tables-HasHistory,
  secret_row, deps, actor,
}

-- The value 43, if the version is still 1.
abbrev change : UpdateInput
change = record {
  secret_id = 5;
  value = 43 ∷ [];
  comment = [];
  expected_version = pos 1;
  actor = actor;
}

abbrev calls : List (ℕ × Call)
calls = (1, update_call change) ∷ (2, reveal_call 5 actor) ∷ (1, delete_call 5 actor) ∷ []

serve_all-HasHistory_example : HasHistory (serve_all deps calls (start tables)).db
serve_all-HasHistory_example = serve_all-HasHistory deps calls (start tables) tables-HasHistory

serve_all-Grows_example : Grows tables (serve_all deps calls (start tables)).db
serve_all-Grows_example = serve_all-Grows deps calls (start tables) tables-HasHistory

serve-Denies_example : Denies (serve deps 2 (reveal_call 5 actor)) (start tables) (some viewer)
unfolding at_least valid rank
serve-Denies_example = serve-Denies deps 2 (reveal_call 5 actor) (start tables) refl

serve-eq-err_example : (serve deps 3 (get_call 5) (start tables)).1.db ≡ tables
unfolding serve get load_secret require_secret_role get_workspace_role_by_secret run on_error
    translate_db_error ◌>>=◌ pure
serve-eq-err_example = serve-eq-err deps 3 (get_call 5) (start tables) Error.not_found refl

abbrev updated : Secret
updated = let s = from_row secret_row in record s { current_version = 2 }

ran : (update deps 1 change (start tables)).0 ≡ ok updated
unfolding update require_secret_role get_workspace_role_by_secret require_role rank valid at_least
    validate_secret_value load_secret get_secret encrypt wrap secret_aad update_tx bump add_version
    bump_secret_version create_secret_version in_tx run on_error translate_db_error ◌>>=◌ pure lift
    raise random_bytes record_event
ran = refl

update-Version_example :
    ((is_positive (pos 1) ≡ false) ⊎ (is_nat (pos 1) (version_of 5 tables.secrets) ≡ true))
    × (updated.current_version ≡ suc (version_of 5 tables.secrets))
    × (version_of 5 (update deps 1 change (start tables)).1.db.secrets ≡ updated.current_version)
update-Version_example = update-Version deps 1 change (start tables) updated tables-HasHistory ran

abbrev after : World
after = (update deps 1 change (start tables)).1

abbrev shown : Secret
shown = record updated { updated_at = 6; value = some (43 ∷ []) }

reveal-update_example : shown.value ≡ some (43 ∷ [])
unfolding reveal get_current_secret_version decrypt_version decrypt unwrap update
    require_secret_role get_workspace_role_by_secret require_role rank valid at_least
    validate_secret_value load_secret get_secret encrypt wrap secret_aad update_tx bump add_version
    bump_secret_version create_secret_version in_tx run on_error translate_db_error ◌>>=◌ pure lift
    raise random_bytes record_event
reveal-update_example =
    reveal-update deps 1 change (start tables) updated tables-HasHistory ran toy-IsAead 1 actor
      after shown refl refl

abbrev first_version : SecretVersion
first_version = let v = version_from_row version_row in record v { value = some (42 ∷ []) }

abbrev rolled_back : Secret
rolled_back = let s = from_row secret_row in record s { current_version = 3 }

abbrev restored : Secret
restored = record rolled_back { updated_at = 4; value = some (42 ∷ []) }

reveal-rollback_example : restored.value ≡ some (42 ∷ [])
unfolding reveal reveal_version rollback rollback_tx get_secret_version
    bump_secret_version_unchecked get_current_secret_version decrypt_version decrypt unwrap
    require_secret_role get_workspace_role_by_secret require_role rank valid at_least load_secret
    get_secret encrypt wrap secret_aad add_version create_secret_version in_tx run on_error
    translate_db_error ◌>>=◌ pure lift raise random_bytes record_event
reveal-rollback_example =
    reveal-rollback deps 1 1 5 (pos 1) actor (start changed_tables) (start changed_tables)
      (rollback 1 5 (pos 1) actor (start changed_tables)).1 first_version rolled_back restored
      changed_tables-HasHistory refl refl refl refl refl
