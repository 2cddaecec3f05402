-- ===== src/Tests/Tokens.antt =====
-- Tokens at concrete inputs (backend/internal/service/token.go).
use vaultly.Prelude.{ℕ, ◌≡◌, ◌≢◌, refl, true, none, some, [], ◌∷◌, Text, codes, ◌==◌}
use vaultly.Db.{Db, TokenRow}
use vaultly.World.{run, on_error, translate_db_error, ◌>>=◌, pure, raise, record_event}
use vaultly.Tokens.{
  Net, AuthenticatedToken, access_token_from_row, authenticate, parse_token_prefix,
  get_access_token_by_hash, active, allows_ip,
}
use vaultly.Tokens.{revoke, revoke_access_token}
use vaultly.Tokens.Revocation.{authenticate-revoke}
use vaultly.World.Steps.{attempt}
use vaultly.World.{World, enqueue}
use vaultly.Authz.{require_token_role, require_role}
use vaultly.Domain.{valid, at_least, rank}
use vaultly.Queries.Roles.{get_workspace_role_by_token}
use vaultly.Tokens.Admission.{IsAdmitted, authenticate-IsAdmitted}
use vaultly.Tests.World.{start, tables, actor}

-- Addresses and prefixes of one number.
abbrev net : Net
net = record {
  Addr = ℕ;
  Prefix = ℕ;
  parse_prefix = λ e. elim e [ [] ↦ none | c ∷ s ↦ some c ];
  masked = λ p. p;
  contains = λ p a. p == a;
  is_valid = λ a. true;
  unmap = λ a. a;
  hash_token = λ t. t;
}

abbrev plaintext : Text
plaintext = codes "vlt_01234567_x"

abbrev row : TokenRow
row = record {
  id = 3;
  project_id = 1;
  environment_id = 1;
  name = [];
  token_hash = plaintext;
  prefix = codes "01234567";
  scopes = codes "secrets:read" ∷ [];
  ip_allowlist = (7 ∷ []) ∷ [];
  rate_limit_rpm = 60;
  expires_at = some 100;
  revoked_at = none;
  last_used_at = none;
  created_at = 0;
  created_by = some 1;
}

abbrev with_token : Db
with_token = record tables { tokens = row ∷ [] }

abbrev admitted : AuthenticatedToken net
admitted = record { token = access_token_from_row net row; workspace_id = 1 }

authenticate-IsAdmitted_example :
    IsAdmitted net plaintext 7 1 with_token admitted
    × ((authenticate net plaintext 7 (start with_token)).1.db ≡ with_token)
unfolding authenticate parse_token_prefix get_access_token_by_hash access_token_from_row active
    allows_ip run on_error translate_db_error ◌>>=◌ pure raise
authenticate-IsAdmitted_example =
    authenticate-IsAdmitted net plaintext 7 (start with_token) admitted refl

abbrev damaged : TokenRow
damaged = record row { ip_allowlist = [] ∷ [] }

-- A second token beside the first.
abbrev second : TokenRow
second = record row { id = 4; token_hash = codes "vlt_76543210_y" }

abbrev two_tokens : Db
two_tokens = record tables { tokens = second ∷ row ∷ [] }

abbrev after : World
after = start (revoke 1 3 actor (start two_tokens)).1.db

authenticate-revoke_example : second.id ≢ 3
unfolding revoke ◌>>=◌ require_token_role on_error run get_workspace_role_by_token require_role
    valid at_least attempt revoke_access_token record_event authenticate parse_token_prefix
    get_access_token_by_hash active access_token_from_row rank allows_ip enqueue pure raise
    translate_db_error
authenticate-revoke_example =
    authenticate-revoke net 1 3 actor (start two_tokens) after (codes "vlt_76543210_y") 7
      (record { token = access_token_from_row net second; workspace_id = 1 }) refl refl refl
