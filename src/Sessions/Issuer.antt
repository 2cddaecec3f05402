-- ===== src/Sessions/Issuer.antt =====
-- Access tokens of users, and the texts of refresh tokens (backend/internal/auth/jwt.go,
-- backend/internal/auth/tokens.go). The JWT library, SHA-256 and base64 are parameters.
use vaultly.Prelude.{ℕ, zero, suc, ◌+◌, Bool, true, Option, none, some, List, [], ◌∷◌, Text, codes}
use vaultly.Domain.{Error}
use vaultly.Db.{Bytes}
use vaultly.World.{advance, Svc, Outcome, ok, err, pure, lift, ◌>>=◌, random_bytes}

pub record Claims : Type 0 where
  pub user_id : ℕ
  pub email : Text
  pub issuer : Text
  pub subject : ℕ
  pub audience : List Text
  pub issued_at : Option ℕ
  pub not_before : Option ℕ
  pub expires_at : Option ℕ
  pub token_id : ℕ

-- The signing methods of the library, by the kind that the key function asks for, with their names.
pub data Method : Type 0 where
  hmac : (alg : Text) → Method
  not_hmac : (alg : Text) → Method

-- The options of a parser: `WithValidMethods`, `WithIssuer`, `WithAudience`,
-- `WithExpirationRequired` and `WithTimeFunc`, with what the function shows.
pub record ParserOptions : Type 0 where
  pub valid_methods : List Text
  pub issuer : Option Text
  pub audience : Option Text
  pub expiration_required : Bool
  pub time : Option ℕ

-- What the source uses of the JWT library: `NewNumericDate`, `SignedString`, and `ParseWithClaims`
-- under options and a key function.
pub record Jwt : Type 0 where
  pub numeric_date : ℕ → ℕ
  pub sign : Method → Bytes → Claims → Option Text
  pub parse : ParserOptions → (Method → Option Bytes) → Text → Option Claims

pub record TokenIssuer : Type 0 where
  pub jwt : Jwt
  pub secret : Bytes
  pub ttl : ℕ

-- The constants of the package.
abbrev pub issuer_name : Text
issuer_name = codes "vaultly"

abbrev pub audience_name : Text
audience_name = codes "vaultly-api"

-- The name of the method that signs.
abbrev pub hs256 : Text
hs256 = codes "HS256"

-- `time.Now()`, and the identifier of the token.
unfoldable pub now : Svc ℕ
now w = (ok (w.env.now w.tick), w)

unfoldable pub new_uuid : Svc ℕ
new_uuid w = (ok (w.env.uuid w.tick), advance w)

pub record Issued : Type 0 where
  pub signed : Text
  pub expires_at : ℕ

abbrev pub claims_of : TokenIssuer → ℕ → Text → ℕ → ℕ → Claims
claims_of t user_id email now id = record {
  user_id = user_id;
  email = email;
  issuer = issuer_name;
  subject = user_id;
  audience = audience_name ∷ [];
  issued_at = some (t.jwt.numeric_date now);
  not_before = some (t.jwt.numeric_date now);
  expires_at = some (t.jwt.numeric_date (now + t.ttl));
  token_id = id;
}

abbrev pub signed_or_error : ℕ → Option Text → Outcome Error Issued
signed_or_error expires_at none = err Error.internal
signed_or_error expires_at (some s) = ok (record { signed = s; expires_at = expires_at })

-- `Issue`
unfoldable pub issue : TokenIssuer → ℕ → Text → Svc Issued
issue t user_id email = do
  time ← now
  id ← new_uuid
  lift (
      signed_or_error (time + t.ttl)
        (t.jwt.sign (hmac hs256) t.secret (claims_of t user_id email time id)))

abbrev pub unless_nil : ℕ → Claims → Option Claims
unless_nil zero c = none
unless_nil (suc n) c = some c

abbrev pub with_user : Option Claims → Option Claims
with_user none = none
with_user (some c) = unless_nil c.user_id c

-- The key function of `Verify`.
abbrev pub key_function : TokenIssuer → Method → Option Bytes
key_function t (hmac alg) = some t.secret
key_function t (not_hmac alg) = none

-- The parser options of `Verify`.
abbrev pub parser_options : ℕ → ParserOptions
parser_options time = record {
  valid_methods = hs256 ∷ [];
  issuer = some issuer_name;
  audience = some audience_name;
  expiration_required = true;
  time = some time;
}

-- `Verify` at a time: nothing where it reports `ErrInvalidToken`.
unfoldable pub verify : TokenIssuer → ℕ → Text → Option Claims
verify t time s = with_user (t.jwt.parse (parser_options time) (key_function t) s)

-- SHA-256 and base64, by which refresh tokens are made.
pub record Digests : Type 0 where
  pub hash_token : Text → Bytes
  pub base64_url : Bytes → Text

pub record GeneratedToken : Type 0 where
  pub plaintext : Text
  pub hash : Bytes

-- `GenerateRefreshToken`
unfoldable pub generate_refresh_token : Digests → Svc GeneratedToken
generate_refresh_token g = do
  secret ← random_bytes 32
  pure (record { plaintext = g.base64_url secret; hash = g.hash_token (g.base64_url secret) })
