-- ===== src/Tests/Rotate.antt =====
-- The rotation of one version to a new key (backend/cmd/rotate-key/main.go).
use vaultly.Prelude.{◌≡◌, ◌≢◌, refl, false, none, some, [], ◌∷◌, codes, arith}
use vaultly.World.{ok, run, on_error, in_tx, ◌>>=◌, pure, lift, raise, random_bytes}
use vaultly.World.Steps.{attempt}
use vaultly.Queries.Rotation.{
  count_secret_versions, list_secret_versions_for_rotation, update_secret_version_wrapped_dek,
}
use vaultly.Crypto.{Keyring, encrypt, wrap, unwrap, rewrap, secret_aad}
use vaultly.Crypto.Toy.{toy, toy-IsAead}
use vaultly.Rotate.{rotate, rotate_from, rotate_batch, rewrap_rows, write_updates, Counts}
use vaultly.Rotate.Ends.{rotate-ends}
use vaultly.Rotate.Progress.{AllRekeyed}
use vaultly.Rotate.Completes.{rotate-AllRekeyed}
use vaultly.Tests.World.{start, tables, keyring}

abbrev new_keyring : Keyring
new_keyring = record { cipher = toy; master = 8 ∷ [] }

rotate-ends_example :
    (rotate keyring new_keyring false 500 (codes "a") (codes "b") 2 (start tables)).0 ≢ ok none
rotate-ends_example =
    rotate-ends keyring new_keyring false 500 2 (codes "a") (codes "b") (start tables) (omega arith)

abbrev one : Counts
one = record { processed = 1; skipped = 0 }

rotated :
    (rotate keyring new_keyring false 500 (codes "a") (codes "b") 3 (start tables)).0
    ≡ ok (some one)
unfolding rotate rotate_from rotate_batch rewrap_rows write_updates count_secret_versions
    list_secret_versions_for_rotation update_secret_version_wrapped_dek run on_error in_tx ◌>>=◌
    pure lift raise random_bytes attempt encrypt wrap unwrap rewrap secret_aad
rotated = refl

rotate-AllRekeyed_example :
    AllRekeyed keyring new_keyring tables.versions
      (rotate keyring new_keyring false 500 (codes "a") (codes "b") 3 (start tables)).1.db.versions
rotate-AllRekeyed_example =
    rotate-AllRekeyed keyring new_keyring toy-IsAead 500 3 (codes "a") (codes "b") (start tables)
      one (omega arith) (omega arith) rotated
