-- ===== src/Secrets/Write.antt =====
-- The operations that write secrets (backend/internal/service/secret.go).
use vaultly.Prelude.{
  ℕ, none, some, [], ◌∷◌, ◌++◌, show_int, Text, codes, ℤ, is_positive, is_nat, ltb, if◌then◌else◌,
}
use vaultly.Domain.{
  Error, member, add, error_or_nil, new_validation_error, secret_created, secret_updated,
  secret_deleted, secret_rolled_back,
}
use vaultly.Db.{Bytes, VersionRow}
use vaultly.World.{
  Svc, DbError, no_rows, pure, ◌>>=◌, ◌>>◌, check, run, on_error, translated, in_tx,
  translate_db_error, record_event, Actor, Meta,
}
use vaultly.Queries.Secrets.{
  create_secret, secret_key_exists, bump_secret_version, bump_secret_version_unchecked,
  update_secret_description, soft_delete_secret,
}
use vaultly.Queries.Versions.{create_secret_version, get_secret_version}
use vaultly.Crypto.{Sealed, encrypt}
use vaultly.Validate.{validate_secret_key, validate_secret_value, validate_description, len}
use vaultly.Authz.{require_environment_role, require_secret_role}
use vaultly.Secrets.Defs.{Deps, Secret, from_row, aad_of, secret_event, load_secret}

pub record CreateInput : Type 0 where
  pub environment_id : ℕ
  pub key : Text
  pub value : Bytes
  pub description : Text
  pub actor : Actor

pub record UpdateInput : Type 0 where
  pub secret_id : ℕ
  pub value : Bytes
  pub comment : Text
  pub expected_version : ℤ
  pub actor : Actor

-- A new row of the history.
unfoldable pub add_version : ℕ → ℕ → Sealed → Text → ℕ → Svc VersionRow
add_version secret_id version s comment user_id = translated (
    run (
      create_secret_version (record {
        secret_id = secret_id;
        version = version;
        wrapped_dek = s.wrapped_dek;
        nonce = s.nonce;
        ciphertext = s.ciphertext;
        comment = comment;
        created_by = some user_id;
      })))

-- The transaction of `Create`.
unfoldable pub create_tx : ℕ → ℕ → ℕ → Text → Text → Sealed → Svc Secret
unfolding add_version
create_tx user_id project_id environment_id key description s = do
  created ← translated (
      run (
        create_secret (record {
          project_id = project_id;
          environment_id = environment_id;
          key = key;
          description = description;
          updated_by = some user_id;
        })))
  add_version created.id 1 s (codes "created") user_id
  translated (run (bump_secret_version_unchecked created.id (some user_id)))
  let secret = from_row created
  pure (record secret { current_version = 1 })

-- `Create`
unfoldable pub create : Deps → ℕ → CreateInput → Svc Secret
unfolding create_tx
create deps user_id input = do
  scope ← require_environment_role user_id input.environment_id member
  let (key, v) = validate_secret_key input.key []
  let v1 = validate_secret_value input.value v
  let (description, v2) = validate_description "description" input.description v1
  check (error_or_nil v2)
  exists ← translated (run (secret_key_exists input.environment_id key))
  check (
      if exists
      then some (new_validation_error "key" "already exists in this environment")
      else none)
  s ← encrypt deps.keyring input.value (aad_of deps scope.project_id input.environment_id key)
  secret ← in_tx (create_tx user_id scope.project_id input.environment_id key description s)
  record_event (
      secret_event scope.workspace_id input.actor secret_created secret.id
        (("key", Meta.text key) ∷ ("environment_id", Meta.number input.environment_id) ∷ []))
  pure secret

abbrev pub stale : DbError → Error
stale no_rows = Error.version_mismatch
stale e = translate_db_error e

-- The bump of `Update`: with an expected version above zero it succeeds only if that is current.
unfoldable pub bump : ℕ → ℤ → ℕ → Svc ℕ
bump secret_id expected user_id =
    if is_positive expected
    then on_error stale (run (bump_secret_version secret_id expected (some user_id)))
    else translated (run (bump_secret_version_unchecked secret_id (some user_id)))

-- The transaction of `Update`.
unfoldable pub update_tx : ℕ → ℤ → ℕ → Sealed → Text → Svc ℕ
unfolding bump add_version
update_tx secret_id expected user_id s comment = do
  version ← bump secret_id expected user_id
  add_version secret_id version s comment user_id
  pure version

abbrev pub or_default : Text → Text → Text
or_default [] default = default
or_default (c ∷ s) default = c ∷ s

-- `Update`
unfoldable pub update : Deps → ℕ → UpdateInput → Svc Secret
unfolding update_tx load_secret
update deps user_id input = do
  scope ← require_secret_role user_id input.secret_id member
  let v = validate_secret_value input.value []
  let v1 = if ltb 200 (len input.comment) then add "comment" "is too long" v else v
  check (error_or_nil v1)
  secret ← load_secret input.secret_id
  s ←
      encrypt deps.keyring input.value
        (aad_of deps secret.project_id secret.environment_id secret.key)
  version ← in_tx (
      update_tx input.secret_id input.expected_version user_id s
        (or_default input.comment (codes "updated")))
  record_event (
      secret_event scope.workspace_id input.actor secret_updated input.secret_id
        (("key", Meta.text secret.key) ∷ ("version", Meta.number version) ∷ []))
  pure (record secret { current_version = version })

-- `UpdateDescription`
unfoldable pub update_description : ℕ → ℕ → Text → Svc (Unit {0})
update_description user_id secret_id description = do
  require_secret_role user_id secret_id member
  let (description', v) = validate_description "description" description []
  check (error_or_nil v)
  translated (run (update_secret_description secret_id description'))

-- `Delete`
unfoldable pub delete : ℕ → ℕ → Actor → Svc (Unit {0})
unfolding load_secret
delete user_id secret_id actor = do
  scope ← require_secret_role user_id secret_id member
  secret ← load_secret secret_id
  translated (run (soft_delete_secret secret_id (some user_id)))
  record_event (
      secret_event scope.workspace_id actor secret_deleted secret_id
        (("key", Meta.text secret.key) ∷ []))

-- The transaction of `Rollback`: the old row's sealed value, as a new version.
unfoldable pub rollback_tx : ℕ → ℕ → VersionRow → Text → Svc ℕ
unfolding add_version
rollback_tx secret_id user_id target comment = do
  version ← translated (run (bump_secret_version_unchecked secret_id (some user_id)))
  add_version secret_id version
      (record {
        wrapped_dek = target.wrapped_dek;
        nonce = target.nonce;
        ciphertext = target.ciphertext;
      })
      comment user_id
  pure version

-- `Rollback`
unfoldable pub rollback : ℕ → ℕ → ℤ → Actor → Svc Secret
unfolding rollback_tx load_secret
rollback user_id secret_id target_version actor = do
  scope ← require_secret_role user_id secret_id member
  secret ← load_secret secret_id
  check (
      if is_nat target_version secret.current_version
      then some (new_validation_error "version" "is already the current version")
      else none)
  target ← translated (run (get_secret_version secret_id target_version))
  version ← in_tx (
      rollback_tx secret_id user_id target
        (codes "rolled back to version " ++ show_int target_version))
  record_event (
      secret_event scope.workspace_id actor secret_rolled_back secret_id (
        ("key", Meta.text secret.key)
        ∷ ("from_version", Meta.number secret.current_version)
        ∷ ("to_version", Meta.number target.version)
        ∷ ("created_version", Meta.number version)
        ∷ []))
  pure (record secret { current_version = version })
