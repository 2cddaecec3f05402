-- ===== src/Tokens/Defs.antt =====
-- The authentication of a token and the pull of its environment's values
-- (backend/internal/service/token.go, backend/internal/auth/tokens.go,
-- backend/internal/domain/models.go). SHA-256 and the package netip are parameters.
use vaultly.Prelude.{
  ℕ, Bool, true, false, ◌&&◌, Option, none, some, List, [], ◌∷◌, Text, codes, text_eq, map, first,
  any, length, ltb, ◌==◌, if◌then◌else◌,
}
use vaultly.Domain.{Error, secrets_pulled}
use vaultly.Db.{Bytes, TokenRow}
use vaultly.World.{
  Svc, DbError, no_rows, ok, err, Stmt, pure, ◌>>=◌, ◌>>◌, check, run, on_error, translate_db_error,
  record_event, Actor, Meta,
}
use vaultly.Queries.Roles.{is_project}
use vaultly.Validate.{len}
use vaultly.Secrets.{Deps, resolve_environment_values}

-- What the source uses of netip, and the digest of a token.
pub record Net : Type 1 where
  pub Addr : Type 0
  pub Prefix : Type 0
  pub parse_prefix : Text → Option Prefix
  pub masked : Prefix → Prefix
  pub contains : Prefix → Addr → Bool
  pub is_valid : Addr → Bool
  pub unmap : Addr → Addr
  pub hash_token : Text → Bytes

pub record TokenWithWorkspace : Type 0 where
  pub row : TokenRow
  pub workspace_id : ℕ

-- `GetAccessTokenByHash`: digests are unique, and the project must be live.
unfoldable pub get_access_token_by_hash : Bytes → Stmt TokenWithWorkspace
get_access_token_by_hash hash st d = elim (first (λ t. text_eq t.token_hash hash) d.tokens) [
  | none ↦ err no_rows
  | some t ↦ elim (first (is_project t.project_id) d.projects) [
    | none ↦ err no_rows
    | some p ↦ ok (record { row = t; workspace_id = p.workspace_id }, d)
  ]
]

-- The text before the first underscore and the text behind it.
abbrev pub cut : Text → Option (Text × Text)
cut [] = none
cut (c ∷ s) =
    if c == b'_' then some ([], s) else elim (cut s) [ none ↦ none | some (a, b) ↦ some (c ∷ a, b) ]

abbrev shaped : Text → Text → Option Text
shaped prefix [] = none
shaped prefix (c ∷ s) = if len prefix == 8 then some prefix else none

-- `ParseTokenPrefix`
unfoldable pub parse_token_prefix : Text → Option Text
parse_token_prefix plaintext = elim (cut plaintext) [
  | none ↦ none
  | some (a, rest) ↦ elim (cut rest) [
    | none ↦ none
    | some (b, secret) ↦ if text_eq a (codes "vlt") then shaped b secret else none
  ]
]

module _ (net : Net) where
  pub record AccessToken : Type 0 where
    pub id : ℕ
    pub project_id : ℕ
    pub environment_id : ℕ
    pub name : Text
    pub prefix : Text
    pub scopes : List Text
    pub ip_allowlist : List net.Prefix
    pub rate_limit_rpm : ℕ
    pub expires_at : Option ℕ
    pub revoked_at : Option ℕ
    pub last_used_at : Option ℕ
    pub created_at : ℕ
    pub created_by : Option ℕ

  -- The loop over the stored entries: one that does not parse is dropped.
  abbrev pub parsed : List Text → List net.Prefix
  parsed [] = []
  parsed (e ∷ es) = elim (net.parse_prefix e) [
    | none ↦ parsed es
    | some p ↦ net.masked p ∷ parsed es
  ]

  -- `accessTokenFromRow`
  unfoldable pub access_token_from_row : TokenRow → AccessToken
  access_token_from_row row = record {
    id = row.id;
    project_id = row.project_id;
    environment_id = row.environment_id;
    name = row.name;
    prefix = row.prefix;
    scopes = row.scopes;
    ip_allowlist = parsed row.ip_allowlist;
    rate_limit_rpm = row.rate_limit_rpm;
    expires_at = row.expires_at;
    revoked_at = row.revoked_at;
    last_used_at = row.last_used_at;
    created_at = row.created_at;
    created_by = row.created_by;
  }

  abbrev pub before : ℕ → Option ℕ → Bool
  before now none = true
  before now (some t) = ltb now t

  abbrev pub is_none : Option ℕ → Bool
  is_none none = true
  is_none (some _) = false

  -- `Active`
  unfoldable pub active : AccessToken → ℕ → Bool
  active t now = is_none t.revoked_at && before now t.expires_at

  -- `HasScope`
  unfoldable pub has_scope : AccessToken → Text → Bool
  has_scope t scope = any (λ s. text_eq s scope) t.scopes

  abbrev pub allowed : List net.Prefix → net.Addr → Bool
  allowed [] addr = true
  allowed (p ∷ ps) addr = net.is_valid addr && any (λ q. net.contains q (net.unmap addr)) (p ∷ ps)

  -- `AllowsIP`
  unfoldable pub allows_ip : AccessToken → net.Addr → Bool
  allows_ip t addr = allowed t.ip_allowlist addr

  pub record AuthenticatedToken : Type 0 where
    pub token : AccessToken
    pub workspace_id : ℕ

  -- `time.Now()`
  abbrev pub clock : Svc ℕ
  clock w = (ok (w.env.now w.tick), w)

  abbrev pub unknown_token : DbError → Error
  unknown_token no_rows = Error.unauthenticated
  unknown_token e = translate_db_error e

  abbrev pub well_formed : Text → Option Error
  well_formed plaintext = elim (parse_token_prefix plaintext) [
    | none ↦ some Error.unauthenticated
    | some _ ↦ none
  ]

  -- The checks of `Authenticate` on what was found, at a time.
  abbrev pub admit : TokenWithWorkspace → net.Addr → ℕ → Svc AuthenticatedToken
  admit found client_ip now =
      check
        (if active (access_token_from_row found.row) now then none else some Error.unauthenticated)
      >> (check (
            if allows_ip (access_token_from_row found.row) client_ip
            then none
            else some Error.forbidden)
          >> pure (record {
            token = access_token_from_row found.row;
            workspace_id = found.workspace_id;
          }))

  -- `Authenticate`
  unfoldable pub authenticate : Text → net.Addr → Svc AuthenticatedToken
  authenticate plaintext client_ip = do
    check (well_formed plaintext)
    found ← on_error unknown_token (run (get_access_token_by_hash (net.hash_token plaintext)))
    now ← clock
    admit found client_ip now

  -- `PullSecrets`: the map of the values by key.
  unfoldable pub pull_secrets : Deps → AuthenticatedToken → Actor → Svc (List (Text × Bytes))
  pull_secrets deps token actor = do
    check (if has_scope token.token (codes "secrets:read") then none else some Error.forbidden)
    resolved ← resolve_environment_values deps token.token.project_id token.token.environment_id
    record_event (record {
      workspace_id = token.workspace_id;
      actor = actor;
      action = secrets_pulled;
      resource_type = "environment";
      resource_id = some token.token.environment_id;
      metadata =
          ("count", Meta.number (length resolved))
          ∷ ("keys", Meta.texts (map (λ r. r.key) resolved))
          ∷ [];
    })
    pure (map (λ r. (r.key, r.value)) resolved)
