-- ===== src/Sessions/Lifetime.antt =====
-- Which access tokens are verified, and until when (backend/internal/auth/jwt.go).
use vaultly.Prelude.{
  ℕ, zero, suc, ◌+◌, ◌≡◌, ◌≢◌, ◌≤◌, ◌<◌, ◌&&◌, not, refl, sym, ap, ◌∙◌, Bool, true, false, Option,
  none, some, List, [], ◌∷◌, Text, text_eq, text_eq→eq, any, Bool-cases, inl, inr, arith, leb, ltb,
  ltb→lt, if◌then◌else◌,
}
use vaultly.Db.{Bytes}
use vaultly.World.{World, ok, lift, ◌>>=◌}
use vaultly.Sessions.Issuer.{
  Claims, Method, hmac, not_hmac, ParserOptions, hs256, key_function, parser_options, Jwt,
  TokenIssuer, Issued, issuer_name, audience_name, claims_of, signed_or_error, unless_nil,
  with_user, now, new_uuid, issue, verify,
}

-- What the options of a parser ask of a token, as the library documents them.
abbrev pub valid_method : List Text → Text → Bool
valid_method [] alg = true
valid_method (m ∷ ms) alg = any (text_eq alg) (m ∷ ms)

abbrev pub same_issuer : Option Text → Text → Bool
same_issuer none issuer = true
same_issuer (some i) issuer = text_eq issuer i

abbrev pub has_audience : Option Text → List Text → Bool
has_audience none audience = true
has_audience (some a) audience = any (text_eq a) audience

abbrev pub started : ℕ → Option ℕ → Bool
started time none = true
started time (some t) = leb t time

abbrev pub unexpired : Bool → ℕ → Option ℕ → Bool
unexpired required time none = not required
unexpired required time (some t) = ltb time t

abbrev pub permits : ParserOptions → ℕ → Text → Claims → Bool
permits o time alg c =
    valid_method o.valid_methods alg
    && (same_issuer o.issuer c.issuer
        && (has_audience o.audience c.audience
            && (started time c.not_before && unexpired o.expiration_required time c.expires_at)))

-- A time that the library does not truncate.
abbrev pub IsWhole : Jwt → Option ℕ → Type 0
IsWhole j none = Unit {0}
IsWhole j (some t) = j.numeric_date t ≡ t

abbrev pub alg_of : Method → Text
alg_of (hmac alg) = alg
alg_of (not_hmac alg) = alg

-- What the source relies on of the library: times are truncated; and a signed token is read back, if
-- the key function gives the key that signed it and the options permit it, and else refused.
pub record IsJwt (j : Jwt) : Type 0 where
  pub truncates : (t : ℕ) → j.numeric_date t ≤ t
  pub whole : (t : ℕ) → j.numeric_date (j.numeric_date t) ≡ j.numeric_date t
  pub reads :
      (m : Method) (key : Bytes) (c : Claims) (s : Text) (o : ParserOptions) (time : ℕ)
      (keys : Method → Option Bytes)
      → j.sign m key c ≡ some s
      → IsWhole j c.issued_at
      → IsWhole j c.not_before
      → IsWhole j c.expires_at
      → o.time ≡ some time
      → keys m ≡ some key
      → j.parse o keys s ≡ (if permits o time (alg_of m) c then some c else none)
  pub refuses :
      (m : Method) (key : Bytes) (c : Claims) (s : Text) (o : ParserOptions)
      (keys : Method → Option Bytes)
      → j.sign m key c ≡ some s
      → keys m ≡ none
      → j.parse o keys s ≡ none

signed_or_error-eq-ok :
    (e : ℕ) (o : Option Text) (i : Issued)
    → signed_or_error e o ≡ ok i
    → (o ≡ some i.signed) × (i.expires_at ≡ e)
signed_or_error-eq-ok e none i h = cc
signed_or_error-eq-ok e (some s) i h =
    let same : Path Issued (record { signed = s; expires_at = e }) i = cc in
    (ap some (ap (λ (i : Issued). i.signed) same), sym (ap (λ (i : Issued). i.expires_at) same))

unless_nil-some : (n : ℕ) (c : Claims) → n ≢ 0 → unless_nil n c ≡ some c
unless_nil-some zero c h = absurd (h refl)
unless_nil-some (suc n) c h = refl

unless_nil-eq-some : (n : ℕ) (c d : Claims) → unless_nil n c ≡ some d → (n ≢ 0) × (d ≡ c)
unless_nil-eq-some zero c d h = cc
unless_nil-eq-some (suc n) c d h = (λ z. omega arith, cc)

-- What `Verify` asks of a token that was signed under the secret.
pub record IsVerified (m : Method) (c : Claims) (time : ℕ) : Type 0 where
  pub method : m ≡ hmac hs256
  pub issuer : c.issuer ≡ issuer_name
  pub audience : any (text_eq audience_name) c.audience ≡ true
  pub started : started time c.not_before ≡ true
  pub expires : (e : ℕ) × (c.expires_at ≡ some e) × (time < e)
  pub user : c.user_id ≢ 0

both : (a b : Bool) → (a && b) ≡ true → (a ≡ true) × (b ≡ true)
both true b h = (refl, h)
both false b h = cc

expiring :
    (time : ℕ) (o : Option ℕ) → unexpired true time o ≡ true → (e : ℕ) × (o ≡ some e) × (time < e)
expiring time none h = cc
expiring time (some e) h = (e, refl, ltb→lt time e h)

permits-IsVerified :
    (alg : Text) (c : Claims) (time : ℕ)
    → permits (parser_options time) time alg c ≡ true
    → c.user_id ≢ 0
    → IsVerified (hmac alg) c time
permits-IsVerified alg c time h user =
    let (named, h1) = both (valid_method (hs256 ∷ []) alg) _ h in
    let (issued, h2) = both (same_issuer (some issuer_name) c.issuer) _ h1 in
    let (meant, h3) = both (has_audience (some audience_name) c.audience) _ h2 in
    let (begun, h4) = both (started time c.not_before) _ h3 in
    record {
      method = ap hmac (text_eq→eq alg hs256 (ground (arith, named)));
      issuer = text_eq→eq c.issuer issuer_name issued;
      audience = meant;
      started = begun;
      expires = expiring time c.expires_at h4;
      user = user;
    }

-- A token that was signed under the secret, by whatever method and with whatever claims: `Verify`
-- returns no other claims than these, and only if the method is HS256, the issuer and the audience are
-- the service's, the token has begun and it has an end that is not reached, and the user is not null.
pub verify-IsVerified :
    (t : TokenIssuer) (m : Method) (c d : Claims) (s : Text) (time : ℕ)
    → IsJwt t.jwt
    → t.jwt.sign m t.secret c ≡ some s
    → IsWhole t.jwt c.issued_at
    → IsWhole t.jwt c.not_before
    → IsWhole t.jwt c.expires_at
    → verify t time s ≡ some d
    → (d ≡ c) × IsVerified m c time
unfolding verify
verify-IsVerified t (not_hmac alg) c d s time j signed i n e h = cc (
    rw (j.refuses (not_hmac alg) t.secret c s (parser_options time) (key_function t) signed refl) at
      h)
verify-IsVerified t (hmac alg) c d s time j signed i n e h =
    let shown =
      j.reads (hmac alg) t.secret c s (parser_options time) time (key_function t) signed i n e refl
        refl in
    elim (Bool-cases (permits (parser_options time) time alg c)) [
      | inr bad ↦
          let nothing : with_user (t.jwt.parse (parser_options time) (key_function t) s) ≡ none =
            ap with_user (shown ∙ ap (λ b. if b then some c else none) bad) in
          cc
      | inl good ↦
          let read : with_user (t.jwt.parse (parser_options time) (key_function t) s)
              ≡ unless_nil c.user_id c =
            ap with_user (shown ∙ ap (λ b. if b then some c else none) good) in
          let (user, same) = unless_nil-eq-some c.user_id c d (sym read ∙ h) in
          (same, permits-IsVerified alg c time good user)
    ]

not_lt : (a b : ℕ) → ltb a b ≡ false → b ≤ a
not_lt a b h = ground arith

module _ (t : TokenIssuer) (user_id : ℕ) (email : Text) (w : World) (i : Issued) where
  issue-eq-ok :
      (issue t user_id email w).0 ≡ ok i
      → (id : ℕ) × (t.jwt.sign
            (hmac hs256)
            t.secret
            (claims_of t user_id email (w.env.now w.tick) id)
          ≡ some i.signed)
        × (i.expires_at ≡ w.env.now w.tick + t.ttl)
  unfolding issue now new_uuid lift ◌>>=◌
  issue-eq-ok h =
      let (signed, ends) = signed_or_error-eq-ok _ _ i h in (w.env.uuid w.tick, signed, ends)

  -- A token that `Issue` returned is verified, from its issue on, exactly until its end in the
  -- precision of the library, and then with the identifier and the address of its user, for the
  -- laws of the library and a user's identifier that is not null.
  pub verify-issue :
      (time : ℕ)
      → IsJwt t.jwt
      → (issue t user_id email w).0 ≡ ok i
      → user_id ≢ 0
      → w.env.now w.tick ≤ time
      → (id : ℕ) × (verify t time i.signed ≡ (
          if ltb time (t.jwt.numeric_date (w.env.now w.tick + t.ttl))
          then some (claims_of t user_id email (w.env.now w.tick) id)
          else none))
  unfolding verify
  verify-issue time j h real since =
      let (id, signed, _) = issue-eq-ok h in
      let c = claims_of t user_id email (w.env.now w.tick) id in
      let begun : leb (t.jwt.numeric_date (w.env.now w.tick)) time ≡ true =
        ground (arith, j.truncates (w.env.now w.tick)) in
      let shown =
        j.reads (hmac hs256) t.secret c i.signed (parser_options time) time (key_function t) signed
          (j.whole (w.env.now w.tick)) (j.whole (w.env.now w.tick))
          (j.whole (w.env.now w.tick + t.ttl)) refl refl in
      let until = ltb time (t.jwt.numeric_date (w.env.now w.tick + t.ttl)) in
      let accepted : permits (parser_options time) time hs256 c ≡ until = rw begun refl in
      (
        id,
        ap with_user shown
            ∙ ap (λ b. with_user (if b then some c else none)) accepted
            ∙ (elim (Bool-cases until) [
              | inl fresh ↦ rw fresh (unless_nil-some user_id c real)
              | inr over ↦ rw over refl
            ]),
      )
