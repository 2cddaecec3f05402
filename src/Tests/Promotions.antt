-- ===== src/Tests/Promotions.antt =====
-- Promotions at concrete inputs (backend/internal/service/promotion.go).
use vaultly.Prelude.{◌≡◌, refl, true, false, none, List, [], ◌∷◌, codes, map}
use vaultly.Domain.{rank, valid, at_least}
use vaultly.World.{
  run, on_error, translate_db_error, ◌>>=◌, pure, lift, raise, random_bytes, record_event, in_tx,
}
use vaultly.Queries.Roles.{get_workspace_role_by_project}
use vaultly.Queries.Projects.{get_environment}
use vaultly.Queries.Secrets.{create_secret, bump_secret_version_unchecked}
use vaultly.Queries.Versions.{create_secret_version, list_current_secret_values}
use vaultly.Crypto.{encrypt, wrap, unwrap, decrypt, secret_aad}
use vaultly.Authz.{require_project_role, require_role}
use vaultly.Secrets.{ResolvedSecret, resolve_rows, resolve_environment_values, add_version}
use vaultly.Promotion.{
  PromoteInput, Plan, added, promote, resolve_environment, changes, to_apply, changed_keys,
  seal_entries, apply_entry, apply_entries, apply_plan, target_secret,
}
use vaultly.Promotion.Reports.{GoesForward, promote-GoesForward, changed_keys-changes}
use vaultly.Tests.World.{start, tables, deps, actor, key}

abbrev input : PromoteInput
input = record {
  project_id = 1;
  source_env_id = 1;
  target_env_id = 2;
  dry_run = false;
  include_values = false;
  keys = [];
  actor = actor;
}

-- The secret of the first environment is new in the second.
abbrev plan : Plan
plan = record {
  source_environment_id = 1;
  target_environment_id = 2;
  source_name = codes "dev";
  target_name = codes "prod";
  changes =
      record { key = key; type = added; masked = true; source_value = none; target_value = none }
      ∷ [];
  dry_run = false;
  applied = 1;
}

promote-GoesForward_example : GoesForward input tables
unfolding promote require_project_role get_workspace_role_by_project require_role rank valid
    at_least resolve_environment get_environment resolve_environment_values resolve_rows
    list_current_secret_values decrypt unwrap encrypt wrap secret_aad apply_plan seal_entries
    apply_entries apply_entry target_secret create_secret bump_secret_version_unchecked add_version
    create_secret_version in_tx run on_error translate_db_error ◌>>=◌ pure lift raise random_bytes
    record_event
promote-GoesForward_example = promote-GoesForward deps 1 input (start tables) plan refl

abbrev source : List ResolvedSecret
source =
    record { secret_id = 1; key = codes "A"; value = 1 ∷ []; version = 1 }
    ∷ record { secret_id = 2; key = codes "B"; value = 2 ∷ []; version = 1 }
    ∷ record { secret_id = 3; key = codes "C"; value = 3 ∷ []; version = 1 }
    ∷ []

abbrev target : List ResolvedSecret
target =
    record { secret_id = 4; key = codes "A"; value = 1 ∷ []; version = 1 }
    ∷ record { secret_id = 5; key = codes "C"; value = 4 ∷ []; version = 1 }
    ∷ []

changed_keys-changes_example :
    changed_keys (changes true [] target source)
    ≡ map (λ p. p.source.key) (to_apply [] target source)
changed_keys-changes_example = changed_keys-changes true [] target source
