-- ===== src/Queries/Secrets.antt =====
-- The statements on the table `secrets` (backend/internal/db/sqlcgen/secrets.sql.go).
use vaultly.Prelude.{
  ℕ, ◌+◌, Bool, true, false, ◌&&◌, Option, none, some, List, ◌∷◌, Text, text_eq, ℤ, is_nat, first,
  any, keep, update_where, sort_by, ◌==◌, ltb, if◌then◌else◌,
}
use vaultly.Db.{Db, SecretRow}
use vaultly.World.{ok, err, DbError, no_rows, unique_violation, foreign_key_violation, Stmt, Stamp}

abbrev pub is_live : SecretRow → Bool
is_live s = elim s.deleted_at [ none ↦ true | some _ ↦ false ]

-- `id = $1 AND deleted_at IS NULL`
abbrev pub is_secret : ℕ → SecretRow → Bool
is_secret id s = s.id == id && is_live s

-- `environment_id = $1 AND key = $2 AND deleted_at IS NULL`
abbrev pub has_key : ℕ → Text → SecretRow → Bool
has_key environment_id key s = s.environment_id == environment_id && text_eq s.key key && is_live s

-- The largest value of a PostgreSQL `integer`.
abbrev pub int32_max : ℕ
int32_max = 2147483647

pub record CreateSecretParams : Type 0 where
  pub project_id : ℕ
  pub environment_id : ℕ
  pub key : Text
  pub description : Text
  pub updated_by : Option ℕ

abbrev pub new_secret : CreateSecretParams → Stamp → SecretRow
new_secret p st = record {
  id = st.uuid;
  project_id = p.project_id;
  environment_id = p.environment_id;
  key = p.key;
  description = p.description;
  current_version = 0;
  created_at = st.time;
  updated_at = st.time;
  updated_by = p.updated_by;
  deleted_at = none;
}

-- A nullable reference to a user.
abbrev pub user_exists : Option ℕ → Db → Bool
user_exists none d = true
user_exists (some u) d = any (λ r. r.id == u) d.users

-- `CreateSecret`: the references, the primary key and the index on live keys are checked.
unfoldable pub create_secret : CreateSecretParams → Stmt SecretRow
create_secret p st d =
    if any (λ r. r.id == p.project_id) d.projects
      && any (λ r. r.id == p.environment_id) d.environments
      && user_exists p.updated_by d
    then (if any (λ s. s.id == st.uuid) d.secrets
        then err unique_violation
        else if any (has_key p.environment_id p.key) d.secrets
        then err unique_violation
        else ok (new_secret p st, record d { secrets = new_secret p st ∷ d.secrets }))
    else err foreign_key_violation

-- `ListSecrets`: live secrets of an environment, by key.
unfoldable pub list_secrets : ℕ → Stmt (List SecretRow)
list_secrets environment_id st d = ok (
  sort_by (λ s. s.key) (keep (λ s. s.environment_id == environment_id && is_live s) d.secrets),
  d,
)

-- `GetSecret`
unfoldable pub get_secret : ℕ → Stmt SecretRow
get_secret id st d = elim (first (is_secret id) d.secrets) [
  | none ↦ err no_rows
  | some s ↦ ok (s, d)
]

-- `SecretKeyExists`
unfoldable pub secret_key_exists : ℕ → Text → Stmt Bool
secret_key_exists environment_id key st d = ok (any (has_key environment_id key) d.secrets, d)

abbrev pub bumped : Option ℕ → Stamp → SecretRow → SecretRow
bumped user st s = record s {
  current_version = s.current_version + 1;
  updated_at = st.time;
  updated_by = user;
}

-- The UPDATE of both bumps: `test` is its WHERE clause, and an integer out of range is an error.
abbrev pub bump_where : (SecretRow → Bool) → Option ℕ → Stmt ℕ
bump_where test user st d = elim (first test d.secrets) [
  | none ↦ err no_rows
  | some s ↦
      if ltb s.current_version int32_max
      then (if user_exists user d
          then ok (
            s.current_version + 1,
            record d { secrets = update_where test (bumped user st) d.secrets },
          )
          else err foreign_key_violation)
      else err DbError.other
]

-- `BumpSecretVersion`: only if `expected` is still the current version.
unfoldable pub bump_secret_version : ℕ → ℤ → Option ℕ → Stmt ℕ
bump_secret_version id expected =
    bump_where (λ s. is_secret id s && is_nat expected s.current_version)

-- `BumpSecretVersionUnchecked`
unfoldable pub bump_secret_version_unchecked : ℕ → Option ℕ → Stmt ℕ
bump_secret_version_unchecked id = bump_where (is_secret id)

-- `UpdateSecretDescription`
unfoldable pub update_secret_description : ℕ → Text → Stmt (Unit {0})
update_secret_description id description st d = ok (
  tt,
  record d {
    secrets =
        update_where (is_secret id)
          (λ s. record s { description = description; updated_at = st.time }) d.secrets;
  },
)

-- `SoftDeleteSecret`
unfoldable pub soft_delete_secret : ℕ → Option ℕ → Stmt (Unit {0})
soft_delete_secret id user st d =
    if user_exists user d
    then ok (
      tt,
      record d {
        secrets =
            update_where (is_secret id)
              (λ s. record s { deleted_at = some st.time; updated_by = user }) d.secrets;
      },
    )
    else err foreign_key_violation

-- `GetSecretByKey`
unfoldable pub get_secret_by_key : ℕ → Text → Stmt SecretRow
get_secret_by_key environment_id key st d = elim (first (has_key environment_id key) d.secrets) [
  | none ↦ err no_rows
  | some s ↦ ok (s, d)
]
