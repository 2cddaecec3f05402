-- ===== src/Tests/Sessions.antt =====
-- An Argon2 and a JWT library that satisfy the laws (backend/internal/auth/password.go,
-- backend/internal/auth/jwt.go).
use vaultly.Prelude.{
  ℕ, ◌+◌, ◌-◌, ◌≡◌, refl, sym, ap, ◌∙◌, none, some, Option, [], ◌∷◌, Text, map, arith, List,
  text_eq, text_eq→eq, subst, Bool-cases, inl, inr, ◌&&◌, if◌then◌else◌,
}
use vaultly.Db.{Bytes}
use vaultly.World.{fill}
use vaultly.World.Returns.{length-fill}
use vaultly.Passwords.{Argon}
use vaultly.Passwords.Fields.{Lacks}
use vaultly.Passwords.RoundTrip.{IsArgon}
use vaultly.Sessions.{
  Claims, Jwt, Method, hmac, not_hmac, ParserOptions, hs256, issuer_name, audience_name,
}
use vaultly.Sessions.Lifetime.{IsJwt, permits, alg_of}

abbrev pub total : Text → ℕ
total [] = 0
total (c ∷ s) = c + total s

abbrev pub argon : Argon
argon = record {
  version = 19;
  id_key = λ p s t m h n. fill n (λ i. total p + i);
  encode = map (λ b. b + 37);
  decode = λ s. some (map (λ c. c - 37) s);
  scan_version = λ s. some 19;
  scan_params = λ s. some (19456, 2, 1);
}

unshifted : (b : Bytes) → map (λ c. c - 37) (map (λ b. b + 37) b) ≡ b
unshifted [] = refl
unshifted (c ∷ b) = λ i. back c i ∷ unshifted b i
  where
    back : (c : ℕ) → (c + 37) - 37 ≡ c
    back c = omega arith

shifted_plain : (b : Bytes) → Lacks b'$' (map (λ b. b + 37) b)
shifted_plain [] = tt
shifted_plain (c ∷ b) = (omega arith, shifted_plain b)

pub argon-IsArgon : IsArgon argon
argon-IsArgon = record {
  length_key = λ p s t m h n. length-fill n _;
  decode-encode = λ b. ap some (unshifted b);
  plain = shifted_plain;
  scans_version = refl;
  scans_params = refl;
}

-- The signed form has the claims that a token of the service has; nothing else is signed.
text_of_some : {s t : Text} → Path (Option Text) (some s) (some t) → s ≡ t
text_of_some h = cc

abbrev packed : Text → Text → List Text → Option ℕ → Option ℕ → Option ℕ → Claims → Option Text
packed alg iss (aud ∷ []) (some issued) (some from) (some until) c =
    if text_eq alg hs256 && (text_eq iss issuer_name && text_eq aud audience_name)
    then some (c.user_id ∷ c.subject ∷ issued ∷ from ∷ until ∷ c.token_id ∷ c.email)
    else none
packed alg iss auds issued from until c = none

abbrev signed : Method → Bytes → Claims → Option Text
signed (hmac alg) key c = packed alg c.issuer c.audience c.issued_at c.not_before c.expires_at c
signed (not_hmac alg) key c = none

abbrev unpacked : Text → Option Claims
unpacked (user ∷ subject ∷ issued ∷ from ∷ until ∷ id ∷ email) = some (record {
  user_id = user;
  email = email;
  issuer = issuer_name;
  subject = subject;
  audience = audience_name ∷ [];
  issued_at = some issued;
  not_before = some from;
  expires_at = some until;
  token_id = id;
})
unpacked _ = none

abbrev permitted : ParserOptions → Option ℕ → Option Bytes → Option Claims → Option Claims
permitted o (some time) (some key) (some c) = if permits o time hs256 c then some c else none
permitted o _ _ _ = none

abbrev pub jwt : Jwt
jwt = record {
  numeric_date = λ t. t;
  sign = signed;
  parse = λ o keys s. permitted o o.time (keys (hmac hs256)) (unpacked s);
}

unpacked-packed :
    (alg iss : Text) (auds : List Text) (issued from until : Option ℕ) (c : Claims) (s : Text)
    → packed alg iss auds issued from until c ≡ some s
    → (alg ≡ hs256)
      × (unpacked s
          ≡ some (record c {
            issuer = iss;
            audience = auds;
            issued_at = issued;
            not_before = from;
            expires_at = until;
          }))
unpacked-packed alg iss (aud ∷ []) (some issued) (some from) (some until) c s h =
    elim (Bool-cases (text_eq alg hs256)) [
      | inr other ↦ cc (rw other at h)
      | inl named ↦ elim (Bool-cases (text_eq iss issuer_name)) [
        | inr other ↦ cc (rw (named, other) at h)
        | inl same_issuer ↦ elim (Bool-cases (text_eq aud audience_name)) [
          | inr other ↦ cc (rw (named, same_issuer, other) at h)
          | inl same_audience ↦
              let text : s
                  ≡ (c.user_id ∷ c.subject ∷ issued ∷ from ∷ until ∷ c.token_id ∷ c.email) =
                sym (text_of_some (rw (named, same_issuer, same_audience) at h)) in
              (
                text_eq→eq alg hs256 named,
                ap unpacked text ∙ (λ i. some (record c {
                  issuer = sym (text_eq→eq iss issuer_name same_issuer) i;
                  audience = sym (text_eq→eq aud audience_name same_audience) i ∷ [];
                  issued_at = some issued;
                  not_before = some from;
                  expires_at = some until;
                })),
              )
        ]
      ]
    ]
unpacked-packed alg iss [] issued from until c s h = cc
unpacked-packed alg iss (aud ∷ bud ∷ auds) issued from until c s h = cc
unpacked-packed alg iss (aud ∷ []) none from until c s h = cc
unpacked-packed alg iss (aud ∷ []) (some issued) none until c s h = cc
unpacked-packed alg iss (aud ∷ []) (some issued) (some from) none c s h = cc

reads_back :
    (m : Method) (key : Bytes) (c : Claims) (s : Text) (o : ParserOptions) (time : ℕ)
    (keys : Method → Option Bytes)
    → signed m key c ≡ some s
    → o.time ≡ some time
    → keys m ≡ some key
    → permitted o o.time (keys (hmac hs256)) (unpacked s)
      ≡ (if permits o time (alg_of m) c then some c else none)
reads_back (not_hmac alg) key c s o time keys h t k = cc
reads_back (hmac alg) key c s o time keys h t k =
    let (named, back) =
      unpacked-packed alg c.issuer c.audience c.issued_at c.not_before c.expires_at c s h in
    let found : keys (hmac hs256) ≡ some key = subst (λ a. keys (hmac a) ≡ some key) named k in
    subst
      (λ a.
        permitted o o.time (keys (hmac hs256)) (unpacked s)
        ≡ (if permits o time a c then some c else none))
      (sym named) (λ i. permitted o (t i) (found i) (back i))

refused :
    (m : Method) (key : Bytes) (c : Claims) (s : Text) (o : ParserOptions)
    (keys : Method → Option Bytes)
    → signed m key c ≡ some s
    → keys m ≡ none
    → permitted o o.time (keys (hmac hs256)) (unpacked s) ≡ none
refused (not_hmac alg) key c s o keys h k = cc
refused (hmac alg) key c s o keys h k =
    let (named, back) =
      unpacked-packed alg c.issuer c.audience c.issued_at c.not_before c.expires_at c s h in
    let found : keys (hmac hs256) ≡ none = subst (λ a. keys (hmac a) ≡ none) named k in
    (λ i. permitted o o.time (found i) (back i)) ∙ unkeyed o o.time c
  where
    unkeyed : (o : ParserOptions) (t : Option ℕ) (c : Claims) → permitted o t none (some c) ≡ none
    unkeyed o none c = refl
    unkeyed o (some t) c = refl

pub jwt-IsJwt : IsJwt jwt
jwt-IsJwt = record {
  truncates = λ t. omega arith;
  whole = λ t. refl;
  reads = λ m key c s o time keys h i n e t k. reads_back m key c s o time keys h t k;
  refuses = refused;
}
