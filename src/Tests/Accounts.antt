-- ===== src/Tests/Accounts.antt =====
-- A user with a password, and the user's sessions (backend/internal/service/auth.go).
use vaultly.Prelude.{
  ℕ, ◌≡◌, ◌≢◌, refl, ap, none, some, [], ◌∷◌, Text, codes, first, arith, inl, true, false, ltb,
  if◌then◌else◌,
}
use vaultly.Domain.{Error, add, valid}
use vaultly.Db.{Db}
use vaultly.World.{
  World, Outcome, ok, err, fill, ◌>>=◌, pure, lift, run, on_error, in_tx, random_bytes,
  record_event,
}
use vaultly.World.Steps.{attempt, reword}
use vaultly.Passwords.{render, hash_password, verify_password, decode_hash, needs_rehash, printed}
use vaultly.Passwords.RoundTrip.{verify_password-hash_password}
use vaultly.Validate.{validate_email, validate_password, validate_name, trim}
use vaultly.Queries.Members.{get_user_by_email, add_workspace_member}
use vaultly.Queries.Accounts
use vaultly.Queries.Accounts.{is_usable, user_of}
use vaultly.Sessions.{
  Claims, hmac, hs256, TokenIssuer, Issued, claims_of, issue, verify, AuthDeps, Session, login,
  refresh, logout, register,
}
use vaultly.Sessions
use vaultly.Sessions.Lifetime.{verify-issue, IsVerified, verify-IsVerified}
use vaultly.Sessions.Login.{IsLogin, login-IsLogin, login-invalid_credentials}
use vaultly.Sessions.Rotation.{
  IsRefreshed, refresh-IsRefreshed, refresh-refresh, IsLoggedOut, logout-IsLoggedOut,
}
use vaultly.Sessions.Registers.{IsRegistered, register-IsRegistered}
use vaultly.Tests.World.{start, people, actor}
use vaultly.Tests.Sessions.{total, argon, argon-IsArgon, jwt, jwt-IsJwt}

abbrev issuer : TokenIssuer
issuer = record { jwt = jwt; secret = 1 ∷ []; ttl = 15 }

abbrev auth : AuthDeps
auth = record {
  unicode = record { lower = λ c. c; is_graphic = λ c. true };
  argon = argon;
  issuer = issuer;
  digests = record { hash_token = λ t. t; base64_url = λ b. b };
  refresh_ttl = 100;
  unmap = λ a. a;
  uuid_string = λ id. fill 8 (λ i. b'a');
}

abbrev email : Text
email = codes "a@b.c"

abbrev password : Text
password = codes "correct horse battery"

abbrev stored : Text
unfolding render printed
stored = render argon (1 ∷ []) (argon.id_key password (1 ∷ []) 2 19456 1 32)

abbrev known : Db
known = record people {
  users =
      record {
        id = 1;
        email = email;
        password_hash = stored;
        name = [];
        created_at = 0;
        updated_at = 0;
      }
      ∷ [];
}

abbrev no_session : Session
no_session = record {
  user = record { id = 0; email = []; name = []; created_at = 0; updated_at = 0 };
  access_token = [];
  access_expires_at = 0;
  refresh_token = [];
  refresh_expires_at = 0;
}

abbrev session_or : Outcome Error Session → Session
session_or (ok x) = x
session_or (err e) = no_session

abbrev logged_in : Session
logged_in = session_or (login auth email password actor (start known)).0

login_ok : (login auth email password actor (start known)).0 ≡ ok logged_in
unfolding login run on_error get_user_by_email attempt Sessions.record_across_workspaces ◌>>=◌ trim
    vaultly.Validate.is_space verify_password decode_hash stored Accounts.list_workspaces_for_user
    record_event Sessions.new_session issue Sessions.now Sessions.new_uuid
    Sessions.generate_refresh_token random_bytes Accounts.create_refresh_token user_of
login_ok = refl

abbrev next_day : World
next_day = record (start known) {
  db = record known {
    refresh_tokens =
        record {
          id = 50;
          user_id = 1;
          token_hash = codes "old";
          expires_at = 90;
          revoked_at = none;
          created_at = 0;
          user_agent = [];
          ip_address = none;
        }
        ∷ [];
  };
}

abbrev refreshed : Session
refreshed = session_or (refresh auth (codes "old") actor next_day).0

refresh_ok : (refresh auth (codes "old") actor next_day).0 ≡ ok refreshed
unfolding refresh Sessions.refresh_found ◌>>=◌ on_error run Accounts.get_active_refresh_token
    Accounts.get_user_by_id Sessions.generate_refresh_token random_bytes Sessions.now in_tx
    Accounts.revoke_refresh_token Accounts.create_refresh_token issue Sessions.new_uuid
refresh_ok = refl

logout_ok : (logout auth (codes "old") actor next_day).0 ≡ ok tt
unfolding logout ◌>>=◌ run Accounts.get_active_refresh_token on_error Accounts.revoke_refresh_token
    Sessions.record_across_workspaces Accounts.list_workspaces_for_user record_event
logout_ok = refl

register_ok :
    (register auth (codes "new@b.c") password (codes "n") actor (start people)).0
    ≡ ok (session_or (register auth (codes "new@b.c") password (codes "n") actor (start people)).0)
unfolding register ◌>>=◌ validate_name vaultly.Validate.is_space
    vaultly.Validate.has_printable_content add validate_password validate_email Sessions.register_tx
    reword hash_password random_bytes run on_error in_tx Accounts.create_user
    Accounts.create_workspace add_workspace_member record_event Sessions.new_session issue
    Sessions.now Sessions.new_uuid Sessions.generate_refresh_token Accounts.create_refresh_token
    user_of valid vaultly.Validate.matches_email trim
register_ok = refl

login-IsLogin_example :
    IsLogin auth email password known logged_in (login auth email password actor (start known)).1.db
login-IsLogin_example = login-IsLogin auth email password actor (start known) logged_in login_ok

login-invalid_credentials_example :
    ((login auth (codes "x@y.z") password actor (start known)).0 ≡ err Error.invalid_credentials)
    × ((login auth (codes "x@y.z") password actor (start known)).1.db ≡ known)
    × ((login auth (codes "x@y.z") password actor (start known)).1.audit ≡ (start known).audit)
unfolding trim vaultly.Validate.is_space
login-invalid_credentials_example =
    login-invalid_credentials auth (codes "x@y.z") password actor (start known) refl (inl refl)

refresh-IsRefreshed_example :
    IsRefreshed auth
      (codes "old")
      (next_day.env.now next_day.tick)
      next_day.db
      refreshed
      (refresh auth (codes "old") actor next_day).1.db
refresh-IsRefreshed_example =
    refresh-IsRefreshed auth (codes "old") actor next_day refreshed refresh_ok

new_digest : refreshed.refresh_token ≢ codes "old"
unfolding refresh Sessions.refresh_found ◌>>=◌ on_error run Accounts.get_active_refresh_token
    Accounts.get_user_by_id Sessions.generate_refresh_token random_bytes Sessions.now in_tx
    Accounts.revoke_refresh_token Accounts.create_refresh_token issue Sessions.new_uuid
new_digest = λ e. omega (arith, ap total e)

refresh-refresh_example :
    first
      (is_usable (codes "old") 30)
      (refresh auth (codes "old") actor next_day).1.db.refresh_tokens
    ≡ none
refresh-refresh_example =
    refresh-refresh auth (codes "old") actor next_day refreshed 30 refresh_ok new_digest

logout-IsLoggedOut_example :
    IsLoggedOut (codes "old") next_day.db (logout auth (codes "old") actor next_day).1.db
    × (first
          (is_usable (codes "old") 30)
          (logout auth (codes "old") actor next_day).1.db.refresh_tokens
        ≡ none)
logout-IsLoggedOut_example =
    logout-IsLoggedOut auth b'o' (codes "ld") actor next_day tt 30 logout_ok

register-IsRegistered_example :
    IsRegistered auth
      (validate_email auth.unicode (codes "new@b.c") []).0
      password
      people
      (session_or (register auth (codes "new@b.c") password (codes "n") actor (start people)).0)
      (register auth (codes "new@b.c") password (codes "n") actor (start people)).1.db
register-IsRegistered_example =
    register-IsRegistered auth argon-IsArgon (codes "new@b.c") password (codes "n") actor
      (start people)
      (session_or (register auth (codes "new@b.c") password (codes "n") actor (start people)).0)
      register_ok

abbrev hashed : Text
unfolding render printed
hashed = render argon (fill 16 (λ i. i)) (argon.id_key password (fill 16 (λ i. i)) 2 19456 1 32)

verify_password-hash_password_example :
    (verify_password argon password hashed ≡ ok tt) × (needs_rehash argon hashed ≡ false)
unfolding hash_password random_bytes ◌>>=◌ pure hashed
verify_password-hash_password_example =
    verify_password-hash_password argon argon-IsArgon password hashed (start people) refl

abbrev issued : Issued
issued = record { signed = 1 ∷ 1 ∷ 0 ∷ 0 ∷ 15 ∷ 100 ∷ email; expires_at = 15 }

verify-issue_example :
    (id : ℕ) × (verify issuer 20 issued.signed
      ≡ (if ltb 20 15 then some (claims_of issuer 1 email 0 id) else none))
unfolding issue Sessions.now Sessions.new_uuid lift ◌>>=◌
verify-issue_example =
    verify-issue issuer 1 email (start people) issued 20 jwt-IsJwt refl (omega arith) (omega arith)

verify-IsVerified_example :
    Path Claims (claims_of issuer 1 email 0 100) (claims_of issuer 1 email 0 100)
    × IsVerified (hmac hs256) (claims_of issuer 1 email 0 100) 10
unfolding verify
verify-IsVerified_example =
    verify-IsVerified issuer (hmac hs256) (claims_of issuer 1 email 0 100)
      (claims_of issuer 1 email 0 100) issued.signed 10 jwt-IsJwt refl refl refl refl refl
