-- ===== src/Tests/Crypto.antt =====
-- The cryptography at concrete inputs (backend/internal/crypto/envelope.go).
use vaultly.Prelude.{◌≡◌, refl, some, [], ◌∷◌, codes, arith}
use vaultly.Db.{Bytes}
use vaultly.World.{ok, err, ◌>>=◌, pure, lift, raise, random_bytes}
use vaultly.Crypto.{Keyring, Sealed, encrypt, wrap, unwrap, decrypt, rewrap, secret_aad}
use vaultly.Crypto.Toy.{toy, toy-IsAead}
use vaultly.Crypto.Aad.{secret_aad_injective}
use vaultly.Crypto.RoundTrip.{decrypt-encrypt, decrypt-rewrap}
use vaultly.Tests.World.{start, people, keyring, stored, aad}

decrypt-encrypt_example : decrypt keyring (some stored) aad ≡ ok (42 ∷ [])
unfolding encrypt wrap ◌>>=◌ pure lift random_bytes secret_aad
decrypt-encrypt_example =
    decrypt-encrypt keyring toy-IsAead (42 ∷ []) aad (start people) stored refl

-- Under another master key.
abbrev next : Keyring
next = record { cipher = toy; master = 8 ∷ [] }

abbrev rewrapped : Sealed
unfolding rewrap unwrap encrypt wrap ◌>>=◌ pure lift raise random_bytes secret_aad
rewrapped = elim (rewrap keyring (some stored) (some next) (start people)).0 [
  | ok t ↦ t
  | err e ↦ stored
]

decrypt-rewrap_example :
    (decrypt next (some rewrapped) aad ≡ decrypt keyring (some stored) aad)
    × (rewrapped.nonce ≡ stored.nonce)
    × (rewrapped.ciphertext ≡ stored.ciphertext)
unfolding rewrap unwrap encrypt wrap ◌>>=◌ pure lift raise random_bytes secret_aad
decrypt-rewrap_example =
    decrypt-rewrap toy toy-IsAead (7 ∷ []) (8 ∷ []) stored rewrapped aad (start people) refl

abbrev project_text : Bytes
project_text = codes "b"

abbrev environment_text : Bytes
environment_text = codes "c"

abbrev key_text : Bytes
key_text = codes "K"

secret_aad_injective_example :
    (project_text ≡ project_text) × (environment_text ≡ environment_text) × (key_text ≡ key_text)
secret_aad_injective_example =
    secret_aad_injective (b'b' ∷ []) (b'c' ∷ []) (b'K' ∷ []) (b'b' ∷ []) (b'c' ∷ []) (b'K' ∷ [])
      (ground arith, tt) (ground arith, tt) (ground arith, tt) (ground arith, tt) refl
