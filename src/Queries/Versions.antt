-- ===== src/Queries/Versions.antt =====
-- The statements on the table `secret_versions` (backend/internal/db/sqlcgen/secrets.sql.go).
use vaultly.Prelude.{
  map, ℕ, Bool, ◌&&◌, Option, none, some, List, [], ◌∷◌, Text, ℤ, is_nat, first, any, keep, ltb,
  ◌==◌, if◌then◌else◌,
}
use vaultly.Db.{Bytes, UserRow, SecretRow, VersionRow}
use vaultly.World.{ok, err, no_rows, unique_violation, foreign_key_violation, Stmt, Stamp}
use vaultly.Queries.Secrets.{user_exists, is_live}

pub record CreateVersionParams : Type 0 where
  pub secret_id : ℕ
  pub version : ℕ
  pub wrapped_dek : Bytes
  pub nonce : Bytes
  pub ciphertext : Bytes
  pub comment : Text
  pub created_by : Option ℕ

abbrev pub new_version : CreateVersionParams → Stamp → VersionRow
new_version p st = record {
  id = st.uuid;
  secret_id = p.secret_id;
  version = p.version;
  wrapped_dek = p.wrapped_dek;
  nonce = p.nonce;
  ciphertext = p.ciphertext;
  comment = p.comment;
  created_at = st.time;
  created_by = p.created_by;
}

-- `UNIQUE (secret_id, version)`
abbrev pub same_version : ℕ → ℕ → VersionRow → Bool
same_version secret_id version v = v.secret_id == secret_id && v.version == version

-- `CreateSecretVersion`
unfoldable pub create_secret_version : CreateVersionParams → Stmt VersionRow
create_secret_version p st d =
    if any (λ s. s.id == p.secret_id) d.secrets && user_exists p.created_by d
    then (if any (λ v. v.id == st.uuid) d.versions
        then err unique_violation
        else if any (same_version p.secret_id p.version) d.versions
        then err unique_violation
        else ok (new_version p st, record d { versions = new_version p st ∷ d.versions }))
    else err foreign_key_violation

-- `GetSecretVersion`
unfoldable pub get_secret_version : ℕ → ℤ → Stmt VersionRow
get_secret_version secret_id version st d =
    elim (first (λ v. v.secret_id == secret_id && is_nat version v.version) d.versions) [
      | none ↦ err no_rows
      | some v ↦ ok (v, d)
    ]

abbrev pub newer : VersionRow → Option VersionRow → Option VersionRow
newer v none = some v
newer v (some u) = if ltb u.version v.version then some v else some u

-- `WHERE secret_id = $1 ORDER BY version DESC LIMIT 1`
abbrev pub latest : ℕ → List VersionRow → Option VersionRow
latest secret_id [] = none
latest secret_id (v ∷ vs) =
    let rest = latest secret_id vs in if v.secret_id == secret_id then newer v rest else rest

-- `GetCurrentSecretVersion`
unfoldable pub get_current_secret_version : ℕ → Stmt VersionRow
get_current_secret_version secret_id st d = elim (latest secret_id d.versions) [
  | none ↦ err no_rows
  | some v ↦ ok (v, d)
]

abbrev place : VersionRow → List VersionRow → List VersionRow
place v [] = v ∷ []
place v (u ∷ us) = if ltb v.version u.version then u ∷ place v us else v ∷ u ∷ us

-- `ORDER BY version DESC`
abbrev by_version : List VersionRow → List VersionRow
by_version [] = []
by_version (v ∷ vs) = place v (by_version vs)

pub record ListSecretVersionsRow : Type 0 where
  pub id : ℕ
  pub secret_id : ℕ
  pub version : ℕ
  pub comment : Text
  pub created_at : ℕ
  pub created_by : Option ℕ
  pub created_by_email : Text

-- The left join with the users: no author, and one that is gone, have an empty address.
abbrev author_email : List UserRow → Option ℕ → Text
author_email users none = []
author_email users (some id) = elim (first (λ u. u.id == id) users) [ none ↦ [] | some u ↦ u.email ]

abbrev listed_version : List UserRow → VersionRow → ListSecretVersionsRow
listed_version users v = record {
  id = v.id;
  secret_id = v.secret_id;
  version = v.version;
  comment = v.comment;
  created_at = v.created_at;
  created_by = v.created_by;
  created_by_email = author_email users v.created_by;
}

-- `ListSecretVersions`
unfoldable pub list_secret_versions : ℕ → Stmt (List ListSecretVersionsRow)
list_secret_versions secret_id st d =
    ok (
      map (listed_version d.users) (by_version (keep (λ v. v.secret_id == secret_id) d.versions)),
      d,
    )

abbrev current_values : List VersionRow → List SecretRow → List (SecretRow × VersionRow)
current_values vs [] = []
current_values vs (s ∷ ss) =
    let rest = current_values vs ss in
    elim (latest s.id vs) [ none ↦ rest | some v ↦ (s, v) ∷ rest ]

-- `ListCurrentSecretValues`: the highest version of each live secret of an environment. The
-- caller sorts the rows by key, so their order here is that of the table.
unfoldable pub list_current_secret_values : ℕ → Stmt (List (SecretRow × VersionRow))
list_current_secret_values environment_id st d = ok (
  current_values d.versions (keep (λ s. s.environment_id == environment_id && is_live s) d.secrets),
  d,
)
