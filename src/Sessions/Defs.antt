-- ===== src/Sessions/Defs.antt =====
-- The operations of the service for accounts and sessions (backend/internal/service/auth.go).
use vaultly.Prelude.{ℕ, ◌+◌, Option, none, some, List, [], ◌∷◌, ◌++◌, Text, codes, map, take}
use vaultly.Domain.{
  Error, Action, owner, error_or_nil, new_validation_error, user_registered, user_logged_in,
  user_logged_out,
}
use vaultly.Db.{Bytes, UserRow, RefreshRow}
use vaultly.World.{
  Svc, Outcome, ok, err, DbError, no_rows, pure, raise, ◌>>=◌, ◌>>◌, check, run, on_error,
  translated, translate_db_error, in_tx, record_event, Actor, Event, Meta,
}
use vaultly.Validate.{Unicode, trim, is_space, validate_email, validate_password, validate_name}
use vaultly.Queries.Members.{get_user_by_email, add_workspace_member}
use vaultly.Queries.Accounts.{
  User, user_of, CreateRefreshTokenParams, create_user, get_user_by_id, create_refresh_token,
  get_active_refresh_token, revoke_refresh_token, revoke_all_user_refresh_tokens, create_workspace,
  WorkspaceWithRole, list_workspaces_for_user,
}
use vaultly.Passwords.{Argon, HashError, hash_password, verify_password}
use vaultly.World.Steps.{attempt, ignore, reword}
use vaultly.Sessions.Issuer.{
  TokenIssuer, Issued, Digests, GeneratedToken, issue, now, generate_refresh_token,
}

pub record AuthDeps : Type 0 where
  pub unicode : Unicode
  pub argon : Argon
  pub issuer : TokenIssuer
  pub digests : Digests
  pub refresh_ttl : ℕ
  pub unmap : ℕ → ℕ
  pub uuid_string : ℕ → Text

pub record Session : Type 0 where
  pub user : User
  pub access_token : Text
  pub access_expires_at : ℕ
  pub refresh_token : Text
  pub refresh_expires_at : ℕ

abbrev pub unmapped : AuthDeps → Option ℕ → Option ℕ
unmapped s none = none
unmapped s (some ip) = some (s.unmap ip)

-- `refreshTokenParams`
unfoldable pub refresh_token_params : AuthDeps → ℕ → Bytes → ℕ → Actor → CreateRefreshTokenParams
refresh_token_params s user_id hash expires_at actor = record {
  user_id = user_id;
  token_hash = hash;
  expires_at = expires_at;
  user_agent = actor.user_agent;
  ip_address = unmapped s actor.ip;
}

abbrev pub session_of : User → Issued → GeneratedToken → ℕ → Session
session_of user access refresh expires_at = record {
  user = user;
  access_token = access.signed;
  access_expires_at = access.expires_at;
  refresh_token = refresh.plaintext;
  refresh_expires_at = expires_at;
}

-- `newSession`
unfoldable pub new_session : AuthDeps → User → Actor → Svc Session
unfolding refresh_token_params
new_session s user actor = do
  access ← issue s.issuer user.id user.email
  refresh ← generate_refresh_token s.digests
  time ← now
  translated (
      run (
        create_refresh_token
          (refresh_token_params s user.id refresh.hash (time + s.refresh_ttl) actor)))
  pure (session_of user access refresh (time + s.refresh_ttl))

abbrev pub as_user : Actor → ℕ → Actor
as_user actor id = record actor { user_id = some id }

-- The loop over the workspaces of a user.
abbrev pub record_all : (ℕ → Event) → List WorkspaceWithRole → Svc (Unit {0})
record_all event [] = pure tt
record_all event (w ∷ ws) = record_event (event w.row.id) >> record_all event ws

abbrev pub record_listed : (ℕ → Event) → Outcome DbError (List WorkspaceWithRole) → Svc (Unit {0})
record_listed event (err e) = pure tt
record_listed event (ok ws) = record_all event ws

abbrev pub account_event : Actor → Action → ℕ → ℕ → Event
account_event actor action user_id workspace_id = record {
  workspace_id = workspace_id;
  actor = actor;
  action = action;
  resource_type = "user";
  resource_id = some user_id;
  metadata = [];
}

-- `recordAcrossWorkspaces`
unfoldable pub record_across_workspaces : ℕ → Actor → Action → Svc (Unit {0})
unfolding attempt
record_across_workspaces user_id actor action = do
  listed ← attempt (run (list_workspaces_for_user user_id))
  record_listed (account_event actor action user_id) listed

-- `defaultWorkspaceName`
unfoldable pub default_workspace_name : Text → Text
default_workspace_name [] = codes "Personal workspace"
default_workspace_name (c ∷ name) = (c ∷ name) ++ codes "'s workspace"

abbrev pub email_taken : Error → Error
email_taken Error.conflict = new_validation_error "email" "is already registered"
email_taken e = e

pub record Registered : Type 0 where
  pub user : User
  pub workspace_id : ℕ

-- The transaction of `Register`.
unfoldable pub register_tx : AuthDeps → Text → Text → Text → Svc Registered
unfolding default_workspace_name
register_tx s email hash name = do
  created ← translated (run (create_user s.unicode email hash name))
  workspace ← translated (
      run (
        create_workspace (default_workspace_name name)
          (codes "ws-" ++ take 8 (s.uuid_string created.id)) created.id))
  translated (run (add_workspace_member workspace.id created.id owner))
  pure (record { user = created; workspace_id = workspace.id })

-- `Register`
unfoldable pub register : AuthDeps → Text → Text → Text → Actor → Svc Session
unfolding register_tx reword
register s email password name actor = do
  let (email', v) = validate_email s.unicode email []
  let (name', v1) = validate_name s.unicode "name" name (validate_password password v)
  check (error_or_nil v1)
  hash ← hash_password s.argon password
  made ← reword email_taken (in_tx (register_tx s email' hash name'))
  record_event (record {
    workspace_id = made.workspace_id;
    actor = as_user actor made.user.id;
    action = user_registered;
    resource_type = "user";
    resource_id = some made.user.id;
    metadata = ("email", Meta.text made.user.email) ∷ [];
  })
  new_session s made.user (as_user actor made.user.id)

-- What follows the check of a password.
abbrev pub verified : AuthDeps → UserRow → Actor → Outcome HashError (Unit {0}) → Svc Session
verified s r actor (err e) = raise Error.invalid_credentials
verified s r actor (ok u) = do
  record_across_workspaces r.id (as_user actor r.id) user_logged_in
  new_session s (user_of r) (as_user actor r.id)

-- What follows the search for an account.
abbrev pub looked_up : AuthDeps → Text → Actor → Outcome DbError UserRow → Svc Session
looked_up s password actor (err no_rows) =
    ignore (hash_password s.argon password) >> raise Error.invalid_credentials
looked_up s password actor (err e) = raise (translate_db_error e)
looked_up s password actor (ok r) =
    verified s r actor (verify_password s.argon password r.password_hash)

-- `Login`
unfoldable pub login : AuthDeps → Text → Text → Actor → Svc Session
unfolding attempt ignore
login s email password actor = do
  found ← attempt (run (get_user_by_email s.unicode (map s.unicode.lower (trim is_space email))))
  looked_up s password actor found

abbrev pub unknown_session : DbError → Error
unknown_session no_rows = Error.unauthenticated
unknown_session e = translate_db_error e

-- The transaction of `Refresh`.
unfoldable pub refresh_tx : AuthDeps → ℕ → Bytes → GeneratedToken → ℕ → Actor → Svc RefreshRow
unfolding refresh_token_params
refresh_tx s user_id hash next expires_at actor = do
  translated (run (revoke_refresh_token hash))
  translated
      (run (create_refresh_token (refresh_token_params s user_id next.hash expires_at actor)))

-- `Refresh` behind the search for the presented token.
unfoldable pub refresh_found : AuthDeps → Text → Actor → RefreshRow → Svc Session
unfolding refresh_tx
refresh_found s refresh_token actor stored = do
  user ← on_error unknown_session (run (get_user_by_id stored.user_id))
  next ← generate_refresh_token s.digests
  time ← now
  in_tx
      (refresh_tx s user.id (s.digests.hash_token refresh_token) next (time + s.refresh_ttl) actor)
  access ← issue s.issuer user.id user.email
  pure (session_of user access next (time + s.refresh_ttl))

-- `Refresh`
unfoldable pub refresh : AuthDeps → Text → Actor → Svc Session
unfolding refresh_found
refresh s refresh_token actor =
    on_error unknown_session (run (get_active_refresh_token (s.digests.hash_token refresh_token)))
    >>= refresh_found s refresh_token actor

-- The end of `Logout`, with what the search returned.
abbrev pub logged_out : Actor → Outcome DbError RefreshRow → Svc (Unit {0})
logged_out actor (err e) = pure tt
logged_out actor (ok r) =
    record_across_workspaces r.user_id (as_user actor r.user_id) user_logged_out

abbrev pub lookup_failure : Outcome DbError RefreshRow → Option Error
lookup_failure (ok r) = none
lookup_failure (err no_rows) = none
lookup_failure (err e) = some (translate_db_error e)

abbrev pub logout_token : AuthDeps → Text → Actor → Svc (Unit {0})
logout_token s refresh_token actor = do
  stored ← attempt (run (get_active_refresh_token (s.digests.hash_token refresh_token)))
  check (lookup_failure stored)
  translated (run (revoke_refresh_token (s.digests.hash_token refresh_token)))
  logged_out actor stored

-- `Logout`
unfoldable pub logout : AuthDeps → Text → Actor → Svc (Unit {0})
unfolding attempt
logout s [] actor = pure tt
logout s (c ∷ token) actor = logout_token s (c ∷ token) actor

-- `LogoutAll`
unfoldable pub logout_all : ℕ → Svc (Unit {0})
logout_all user_id = translated (run (revoke_all_user_refresh_tokens user_id))

abbrev pub unknown_user : DbError → Error
unknown_user no_rows = Error.not_found
unknown_user e = translate_db_error e

-- `Me`
unfoldable pub me : ℕ → Svc User
me user_id = on_error unknown_user (run (get_user_by_id user_id))
