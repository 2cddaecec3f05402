-- ===== src/Tests/World.antt =====
-- Small tables: a workspace with an owner and a viewer, a project with two environments, and a
-- secret in the first of them (rows of backend/internal/db/sqlcgen/models.go).
use vaultly.Prelude.{◌+◌, refl, false, none, some, [], ◌∷◌, Text, codes, arith}
use vaultly.Domain.{Error, owner, viewer}
use vaultly.Db.{Db, SecretRow, VersionRow, empty_db, Bytes}
use vaultly.World.{World, Env, Actor, Outcome, ok, err, ◌>>=◌, pure, lift, random_bytes}
use vaultly.Crypto.{Keyring, Sealed, encrypt, wrap, secret_aad}
use vaultly.Crypto.Toy.{toy}
use vaultly.Secrets.{Deps, aad_of}
use vaultly.Secrets.History.{HasHistory}

abbrev pub env : Env
env = record {
  fails = λ t. false;
  uuid = λ t. 100 + t;
  now = λ t. t;
  entropy = λ t. some (λ i. i + t);
}

abbrev pub keyring : Keyring
keyring = record { cipher = toy; master = 7 ∷ [] }

abbrev pub deps : Deps
deps = record {
  keyring = keyring;
  uuid_string = λ id. (b'a' + id) ∷ [];
  unicode = record { lower = λ c. c; is_graphic = λ c. false };
}

abbrev pub actor : Actor
actor = record { user_id = some 1; token_id = none; ip = none; user_agent = [] }

abbrev pub people : Db
people = record empty_db {
  users =
      record {
        id = 1;
        email = codes "a@b.c";
        password_hash = [];
        name = [];
        created_at = 0;
        updated_at = 0;
      }
      ∷ record {
        id = 2;
        email = codes "d@b.c";
        password_hash = [];
        name = [];
        created_at = 0;
        updated_at = 0;
      }
      ∷ [];
  workspaces =
      record { id = 1; name = []; slug = []; owner_id = 1; created_at = 0; updated_at = 0 } ∷ [];
  members =
      record { workspace_id = 1; user_id = 1; role = owner; created_at = 0 }
      ∷ record { workspace_id = 1; user_id = 2; role = viewer; created_at = 0 }
      ∷ [];
  projects =
      record {
        id = 1;
        workspace_id = 1;
        name = [];
        slug = [];
        description = [];
        created_at = 0;
        updated_at = 0;
        deleted_at = none;
      }
      ∷ [];
  environments =
      record {
        id = 1;
        project_id = 1;
        name = codes "dev";
        rank = 0;
        created_at = 0;
        updated_at = 0;
      }
      ∷ record {
        id = 2;
        project_id = 1;
        name = codes "prod";
        rank = 1;
        created_at = 0;
        updated_at = 0;
      }
      ∷ [];
}

abbrev pub key : Text
key = codes "K"

abbrev sealed_or : Sealed → Outcome Error Sealed → Sealed
sealed_or s (ok t) = t
sealed_or s (err e) = s

abbrev nothing : Sealed
nothing = record { wrapped_dek = []; nonce = []; ciphertext = [] }

abbrev pub aad : Bytes
aad = aad_of deps 1 1 key

abbrev pub start : Db → World
start d = record {
  env = env;
  tick = 0;
  db = d;
  audit = record { events = []; capacity = 4; dropped = 0 };
}

abbrev pub secret_row : SecretRow
secret_row = record {
  id = 5;
  project_id = 1;
  environment_id = 1;
  key = key;
  description = [];
  current_version = 1;
  created_at = 0;
  updated_at = 0;
  updated_by = some 1;
  deleted_at = none;
}

-- The value 42, sealed for the secret.
abbrev pub stored : Sealed
unfolding encrypt wrap ◌>>=◌ pure lift random_bytes secret_aad
stored = sealed_or nothing (encrypt keyring (42 ∷ []) aad (start people)).0

abbrev pub version_row : VersionRow
version_row = record {
  id = 9;
  secret_id = 5;
  version = 1;
  wrapped_dek = stored.wrapped_dek;
  nonce = stored.nonce;
  ciphertext = stored.ciphertext;
  comment = [];
  created_at = 0;
  created_by = some 1;
}

abbrev pub tables : Db
tables = record people { secrets = secret_row ∷ []; versions = version_row ∷ [] }

pub tables-HasHistory : HasHistory tables
tables-HasHistory = record { unique = (refl, tt); counts = λ id. ground arith }

-- The same with a second version of the value 43.
abbrev pub changed : Sealed
unfolding encrypt wrap ◌>>=◌ pure lift random_bytes secret_aad
changed = sealed_or nothing (encrypt keyring (43 ∷ []) aad (start people)).0

abbrev pub changed_tables : Db
changed_tables = record people {
  secrets = record secret_row { current_version = 2 } ∷ [];
  versions =
      record version_row { id = 10; version = 2; ciphertext = changed.ciphertext }
      ∷ version_row
      ∷ [];
}

pub changed_tables-HasHistory : HasHistory changed_tables
changed_tables-HasHistory = record { unique = (refl, tt); counts = λ id. ground arith }
