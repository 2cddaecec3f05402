-- ===== src/Secrets/Defs.antt =====
-- What the secret operations share: the results, the loading and the decryption of a value
-- (backend/internal/service/secret.go).
use vaultly.Prelude.{ℕ, Option, none, some, List, String, Text}
use vaultly.Domain.{Action}
use vaultly.Db.{Bytes, SecretRow, VersionRow}
use vaultly.World.{Svc, pure, lift, ◌>>=◌, run, translated, Actor, Event, Meta}
use vaultly.Queries.Secrets.{get_secret}
use vaultly.Crypto.{Keyring, Sealed, decrypt, secret_aad}
use vaultly.Validate.{Unicode}

-- What the services are built from: the keyring, and the texts of identifiers and characters.
pub record Deps : Type 0 where
  pub keyring : Keyring
  pub uuid_string : ℕ → Bytes
  pub unicode : Unicode

pub record Secret : Type 0 where
  pub id : ℕ
  pub project_id : ℕ
  pub environment_id : ℕ
  pub key : Text
  pub description : Text
  pub current_version : ℕ
  pub created_at : ℕ
  pub updated_at : ℕ
  pub updated_by : Option ℕ
  pub value : Option Bytes

abbrev pub from_row : SecretRow → Secret
from_row s = record {
  id = s.id;
  project_id = s.project_id;
  environment_id = s.environment_id;
  key = s.key;
  description = s.description;
  current_version = s.current_version;
  created_at = s.created_at;
  updated_at = s.updated_at;
  updated_by = s.updated_by;
  value = none;
}

abbrev pub sealed_of : VersionRow → Sealed
sealed_of v = record { wrapped_dek = v.wrapped_dek; nonce = v.nonce; ciphertext = v.ciphertext }

-- The associated data of a secret's values.
abbrev pub aad_of : Deps → ℕ → ℕ → Text → Bytes
aad_of deps project_id environment_id key =
    secret_aad (deps.uuid_string project_id) (deps.uuid_string environment_id) key

abbrev pub secret_event : ℕ → Actor → Action → ℕ → List (String × Meta) → Event
secret_event workspace_id actor action secret_id metadata = record {
  workspace_id = workspace_id;
  actor = actor;
  action = action;
  resource_type = "secret";
  resource_id = some secret_id;
  metadata = metadata;
}

-- `getSecret`
unfoldable pub load_secret : ℕ → Svc Secret
load_secret secret_id = do row ← translated (run (get_secret secret_id)); pure (from_row row)

-- `decrypt`: one stored version under the secret's identity.
unfoldable pub decrypt_version : Deps → Secret → VersionRow → Svc Bytes
decrypt_version deps secret version = lift (
    decrypt deps.keyring (some (sealed_of version))
      (aad_of deps secret.project_id secret.environment_id secret.key))
