-- ===== src/Secrets/Read.antt =====
-- The operations that read secrets (backend/internal/service/secret.go).
use vaultly.Prelude.{ℕ, Option, none, some, List, [], ◌∷◌, Text, ℤ, map, sort_by}
use vaultly.Domain.{viewer, member, secret_read}
use vaultly.Db.{Bytes, SecretRow, VersionRow}
use vaultly.World.{Svc, pure, lift, ◌>>=◌, ◌>>◌, run, translated, record_event, Actor, Meta}
use vaultly.Queries.Secrets.{list_secrets}
use vaultly.Queries.Versions.{
  get_secret_version, get_current_secret_version, ListSecretVersionsRow, list_secret_versions,
  list_current_secret_values,
}
use vaultly.Crypto.{decrypt}
use vaultly.Authz.{require_environment_role, require_secret_role}
use vaultly.Secrets.Defs.{
  Deps, Secret, from_row, sealed_of, aad_of, secret_event, load_secret, decrypt_version,
}

pub record SecretVersion : Type 0 where
  pub id : ℕ
  pub secret_id : ℕ
  pub version : ℕ
  pub comment : Text
  pub created_at : ℕ
  pub created_by : Option ℕ
  pub created_by_email : Text
  pub value : Option Bytes

abbrev pub version_from_listed : ListSecretVersionsRow → SecretVersion
version_from_listed v = record {
  id = v.id;
  secret_id = v.secret_id;
  version = v.version;
  comment = v.comment;
  created_at = v.created_at;
  created_by = v.created_by;
  created_by_email = v.created_by_email;
  value = none;
}

abbrev pub version_from_row : VersionRow → SecretVersion
version_from_row v = record {
  id = v.id;
  secret_id = v.secret_id;
  version = v.version;
  comment = v.comment;
  created_at = v.created_at;
  created_by = v.created_by;
  created_by_email = [];
  value = none;
}

-- `List`
unfoldable pub list : ℕ → ℕ → Svc (List Secret)
list user_id environment_id = do
  require_environment_role user_id environment_id viewer
  rows ← translated (run (list_secrets environment_id))
  pure (map from_row rows)

-- `Reveal`
unfoldable pub reveal : Deps → ℕ → ℕ → Actor → Svc Secret
unfolding load_secret decrypt_version
reveal deps user_id secret_id actor = do
  scope ← require_secret_role user_id secret_id member
  secret ← load_secret secret_id
  version ← translated (run (get_current_secret_version secret_id))
  plaintext ← decrypt_version deps secret version
  record_event (
      secret_event scope.workspace_id actor secret_read secret_id
        (("key", Meta.text secret.key) ∷ ("version", Meta.number version.version) ∷ []))
  pure (record secret { value = some plaintext })

-- `Get`
unfoldable pub get : ℕ → ℕ → Svc Secret
unfolding load_secret
get user_id secret_id = do require_secret_role user_id secret_id viewer; load_secret secret_id

-- `ListVersions`
unfoldable pub list_versions : ℕ → ℕ → Svc (List SecretVersion)
list_versions user_id secret_id = do
  require_secret_role user_id secret_id viewer
  rows ← translated (run (list_secret_versions secret_id))
  pure (map version_from_listed rows)

-- `RevealVersion`
unfoldable pub reveal_version : Deps → ℕ → ℕ → ℤ → Actor → Svc SecretVersion
unfolding load_secret decrypt_version
reveal_version deps user_id secret_id version actor = do
  scope ← require_secret_role user_id secret_id member
  secret ← load_secret secret_id
  row ← translated (run (get_secret_version secret_id version))
  plaintext ← decrypt_version deps secret row
  record_event (
      secret_event scope.workspace_id actor secret_read secret_id
        (("key", Meta.text secret.key) ∷ ("version", Meta.number row.version) ∷ []))
  let shown = version_from_row row
  pure (record shown { value = some plaintext })

pub record ResolvedSecret : Type 0 where
  pub secret_id : ℕ
  pub key : Text
  pub value : Bytes
  pub version : ℕ

-- The decryptions are independent, and the first failure is the result: their order is no matter.
unfoldable pub resolve_rows :
    Deps → ℕ → ℕ → List (SecretRow × VersionRow) → Svc (List ResolvedSecret)
resolve_rows deps project_id environment_id [] = pure []
resolve_rows deps project_id environment_id ((s, v) ∷ rows) = do
  plaintext ←
      lift (decrypt deps.keyring (some (sealed_of v)) (aad_of deps project_id environment_id s.key))
  rest ← resolve_rows deps project_id environment_id rows
  pure (record { secret_id = s.id; key = s.key; value = plaintext; version = v.version } ∷ rest)

-- `resolveEnvironmentValues`
unfoldable pub resolve_environment_values : Deps → ℕ → ℕ → Svc (List ResolvedSecret)
unfolding resolve_rows
resolve_environment_values deps project_id environment_id = do
  rows ← translated (run (list_current_secret_values environment_id))
  resolved ← resolve_rows deps project_id environment_id rows
  pure (sort_by (λ r. r.key) resolved)
