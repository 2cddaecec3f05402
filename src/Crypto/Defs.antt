-- ===== src/Crypto/Defs.antt =====
-- `Keyring` and its operations (backend/internal/crypto/envelope.go).
use vaultly.Prelude.{
  ℕ, ◌+◌, ◌≡◌, ◌||◌, Option, none, some, [], ◌∷◌, ◌++◌, length, take, drop, ltb, ◌==◌,
  if◌then◌else◌,
}
use vaultly.Domain.{Error}
use vaultly.Db.{Bytes}
use vaultly.World.{Outcome, ok, err, Svc, pure, raise, lift, ◌>>=◌, ◌>>◌, random_bytes}

-- `aes.NewCipher` with `cipher.NewGCM`: key, nonce, text, associated data. The tag is the end of a
-- sealed text.
pub record Cipher : Type 0 where
  pub seal : Bytes → Bytes → Bytes → Bytes → Bytes
  pub open_sealed : Bytes → Bytes → Bytes → Bytes → Option Bytes

-- What the package documents: a sealed text opens to its plaintext, what opens was sealed, and the
-- tag makes a sealed text longer by the overhead.
pub record IsAead (c : Cipher) : Type 0 where
  pub open_seal :
      (key nonce p aad : Bytes) → c.open_sealed key nonce (c.seal key nonce p aad) aad ≡ some p
  pub seal_open :
      (key nonce s aad p : Bytes)
      → c.open_sealed key nonce s aad ≡ some p
      → c.seal key nonce p aad ≡ s
  pub length-seal : (key nonce p aad : Bytes) → length (c.seal key nonce p aad) ≡ length p + 16

pub record Keyring : Type 0 where
  pub cipher : Cipher
  pub master : Bytes

pub record Sealed : Type 0 where
  pub wrapped_dek : Bytes
  pub nonce : Bytes
  pub ciphertext : Bytes

abbrev pub key_size : ℕ
key_size = 32

-- `NonceSize` and `Overhead` of `cipher.NewGCM`
abbrev pub nonce_size : ℕ
nonce_size = 12

abbrev pub overhead : ℕ
overhead = 16

-- `newAEAD`: AES takes keys of 16, 24 and 32 bytes.
abbrev pub new_aead : Bytes → Outcome Error (Unit {0})
new_aead key =
    if length key == 16 || length key == 24 || length key == 32 then ok tt else err Error.internal

-- `NewKeyring`
unfoldable pub new_keyring : Cipher → Bytes → Outcome Error Keyring
new_keyring c master =
    if length master == key_size
    then ok (record { cipher = c; master = master })
    else err Error.internal

-- `wrap`: the nonce, and behind it the sealed key.
unfoldable pub wrap : Keyring → Bytes → Svc Bytes
wrap k dek = do nonce ← random_bytes nonce_size; pure (nonce ++ k.cipher.seal k.master nonce dek [])

abbrev pub sized : Option Bytes → Outcome Error Bytes
sized none = err Error.decrypt_failed
sized (some dek) = if length dek == key_size then ok dek else err Error.decrypt_failed

-- `unwrap`
unfoldable pub unwrap : Keyring → Bytes → Outcome Error Bytes
unwrap k wrapped =
    if ltb (length wrapped) (nonce_size + overhead)
    then err Error.decrypt_failed
    else sized
        (k.cipher.open_sealed k.master (take nonce_size wrapped) (drop nonce_size wrapped) [])

-- `Encrypt`
unfoldable pub encrypt : Keyring → Bytes → Bytes → Svc Sealed
encrypt k plaintext aad = do
  dek ← random_bytes key_size
  lift (new_aead dek)
  nonce ← random_bytes nonce_size
  wrapped ← wrap k dek
  pure (record {
    wrapped_dek = wrapped;
    nonce = nonce;
    ciphertext = k.cipher.seal dek nonce plaintext aad;
  })

abbrev pub opened : Option Bytes → Outcome Error Bytes
opened none = err Error.decrypt_failed
opened (some p) = ok p

-- The part of `Decrypt` behind `unwrap`.
abbrev pub open_with : Keyring → Sealed → Bytes → Outcome Error Bytes → Outcome Error Bytes
open_with k s aad (err e) = err e
open_with k s aad (ok dek) = elim (new_aead dek) [
  | err e ↦ err e
  | ok _ ↦
      if length s.nonce == nonce_size
      then opened (k.cipher.open_sealed dek s.nonce s.ciphertext aad)
      else err Error.decrypt_failed
]

-- `Decrypt`; `none` is the nil pointer.
unfoldable pub decrypt : Keyring → Option Sealed → Bytes → Outcome Error Bytes
unfolding unwrap
decrypt k none aad = err Error.decrypt_failed
decrypt k (some s) aad = open_with k s aad (unwrap k s.wrapped_dek)

-- `Rewrap`
unfoldable pub rewrap : Keyring → Option Sealed → Option Keyring → Svc Sealed
rewrap k none next = raise Error.decrypt_failed
rewrap k (some s) none = raise Error.decrypt_failed
rewrap k (some s) (some next) = do
  dek ← lift (unwrap k s.wrapped_dek)
  wrapped ← wrap next dek
  pure (record s { wrapped_dek = wrapped })

-- `SecretAAD`
unfoldable pub secret_aad : Bytes → Bytes → Bytes → Bytes
secret_aad project_id environment_id key = project_id ++ 0 ∷ (environment_id ++ 0 ∷ key)
