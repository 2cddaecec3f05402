-- ===== src/Passwords/Defs.antt =====
-- The hashing of passwords (backend/internal/auth/password.go). Argon2, base64 and `fmt.Sscanf` are
-- parameters.
use vaultly.Prelude.{
  ℕ, Bool, true, false, ◌||◌, Option, none, some, List, [], ◌∷◌, ◌++◌, Text, codes, text_eq, length,
  ltb, ◌==◌, if◌then◌else◌, decimal,
}
use vaultly.Db.{Bytes}
use vaultly.World.{Svc, Outcome, ok, err, pure, ◌>>=◌, random_bytes}

pub record Argon : Type 0 where
  pub version : ℕ
  -- `argon2.IDKey`: password, salt, time, memory, threads, length of the key.
  pub id_key : Text → Bytes → ℕ → ℕ → ℕ → ℕ → Bytes
  pub encode : Bytes → Text
  pub decode : Text → Option Bytes
  -- `Sscanf` with "v=%d", and with "m=%d,t=%d,p=%d".
  pub scan_version : Text → Option ℕ
  pub scan_params : Text → Option (ℕ × ℕ × ℕ)

pub data HashError : Type 0 where
  invalid_hash incompatible_version mismatched_password : HashError

-- `strings.Split` by one character.
abbrev pub onto : ℕ → List Text → List Text
onto c [] = (c ∷ []) ∷ []
onto c (p ∷ ps) = (c ∷ p) ∷ ps

abbrev pub split : ℕ → Text → List Text
split sep [] = [] ∷ []
split sep (c ∷ s) = let rest = split sep s in if c == sep then [] ∷ rest else onto c rest

pub record ArgonParams : Type 0 where
  pub memory : ℕ
  pub time : ℕ
  pub threads : ℕ

pub record Decoded : Type 0 where
  pub params : ArgonParams
  pub salt : Bytes
  pub key : Bytes

-- `%d`
unfoldable pub printed : ℕ → Text
printed n = decimal 10 n

-- `HashPassword`'s text.
unfoldable pub render : Argon → Bytes → Bytes → Text
render a salt key =
    codes "$argon2id$v="
    ++ (printed a.version
        ++ (codes "$m=19456,t=2,p=1$" ++ (a.encode salt ++ (codes "$" ++ a.encode key))))

-- `HashPassword`
unfoldable pub hash_password : Argon → Text → Svc Text
unfolding render
hash_password a password = do
  salt ← random_bytes 16
  pure (render a salt (a.id_key password salt 2 19456 1 32))

abbrev is_empty : Bytes → Bool
is_empty [] = true
is_empty (_ ∷ _) = false

abbrev pub decode_bytes : Option Bytes → Outcome HashError Bytes
decode_bytes none = err HashError.invalid_hash
decode_bytes (some b) = if is_empty b then err HashError.invalid_hash else ok b

abbrev pub decode_params : Option (ℕ × ℕ × ℕ) → Outcome HashError ArgonParams
decode_params none = err HashError.invalid_hash
decode_params (some (m, t, p)) =
    if m == 0 || t == 0 || p == 0
    then err HashError.invalid_hash
    else ok (record { memory = m; time = t; threads = p })

abbrev pub check_version : ℕ → Option ℕ → Outcome HashError (Unit {0})
check_version version none = err HashError.invalid_hash
check_version version (some v) = if v == version then ok tt else err HashError.incompatible_version

abbrev pub and_then :
    {A B : Type 0} → Outcome HashError A → (A → Outcome HashError B) → Outcome HashError B
and_then (ok a) f = f a
and_then (err e) f = err e

-- The fields behind the first.
abbrev pub decode_fields : Argon → Text → Text → Text → Text → Text → Outcome HashError Decoded
decode_fields a name version params salt key =
    if text_eq name (codes "argon2id")
    then and_then (check_version a.version (a.scan_version version)) (λ _.
      and_then (decode_params (a.scan_params params)) (λ p.
        and_then (decode_bytes (a.decode salt)) (λ s.
          and_then (decode_bytes (a.decode key))
            (λ k. ok (record { params = p; salt = s; key = k })))))
    else err HashError.invalid_hash

abbrev pub decode_parts : Argon → List Text → Outcome HashError Decoded
decode_parts a ([] ∷ name ∷ version ∷ params ∷ salt ∷ key ∷ []) =
    decode_fields a name version params salt key
decode_parts a _ = err HashError.invalid_hash

-- `decodeHash`
unfoldable pub decode_hash : Argon → Text → Outcome HashError Decoded
decode_hash a encoded = decode_parts a (split b'$' encoded)

-- `VerifyPassword`
unfoldable pub verify_password : Argon → Text → Text → Outcome HashError (Unit {0})
verify_password a password encoded = and_then (decode_hash a encoded) (λ d.
    if text_eq
      (a.id_key password d.salt d.params.time d.params.memory d.params.threads (length d.key)) d.key
    then ok tt
    else err HashError.mismatched_password)

abbrev pub is_weak : Outcome HashError Decoded → Bool
is_weak (err e) = true
is_weak (ok d) = ltb d.params.memory 19456 || ltb d.params.time 2 || ltb d.params.threads 1

-- `NeedsRehash`
unfoldable pub needs_rehash : Argon → Text → Bool
needs_rehash a encoded = is_weak (decode_hash a encoded)
