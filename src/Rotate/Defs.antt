-- ===== src/Rotate/Defs.antt =====
-- The command that rewraps every stored data key (backend/cmd/rotate-key/main.go). Its flags and the
-- keys of its environment are arguments, and the output is left out.
use vaultly.Prelude.{
  ℕ, zero, suc, ◌+◌, Bool, ◌||◌, Option, none, some, List, [], ◌∷◌, Text, text_eq, length, ltb,
  ◌==◌, if◌then◌else◌,
}
use vaultly.Domain.{Error}
use vaultly.Db.{Bytes}
use vaultly.World.{Svc, Outcome, ok, err, pure, raise, ◌>>=◌, ◌>>◌, check, run, on_error, in_tx}
use vaultly.World.Steps.{attempt}
use vaultly.Crypto.{Keyring, Sealed, rewrap}
use vaultly.Queries.Rotation.{
  RotationRow, count_secret_versions, list_secret_versions_for_rotation,
  update_secret_version_wrapped_dek,
}

-- The struct `rewrapped`.
pub record Rewrapped : Type 0 where
  pub id : ℕ
  pub dek : Bytes

-- The updates of a batch, and how many of its rows are skipped.
pub record Batch : Type 0 where
  pub updates : List Rewrapped
  pub skipped : ℕ

pub record Counts : Type 0 where
  pub processed : ℕ
  pub skipped : ℕ

-- The last row of a batch moves the cursor.
abbrev pub last_id : RotationRow → List RotationRow → ℕ
last_id r [] = r.id
last_id r (q ∷ qs) = last_id q qs

abbrev pub counted : ℕ → ℕ → Counts → Counts
counted n skipped c = record { processed = c.processed + n; skipped = c.skipped + skipped }

abbrev pub wrapped_of : RotationRow → Sealed
wrapped_of r = record { wrapped_dek = r.wrapped_dek; nonce = []; ciphertext = [] }

abbrev pub add_update : ℕ → Sealed → Batch → Batch
add_update id s b = record b { updates = record { id = id; dek = s.wrapped_dek } ∷ b.updates }

abbrev pub add_skip : Batch → Batch
add_skip b = record b { skipped = b.skipped + 1 }

-- The loop over the updates, inside the transaction.
unfoldable pub write_updates : List Rewrapped → Svc (Unit {0})
write_updates [] = pure tt
write_updates (u ∷ us) = do
  on_error (λ _. Error.internal) (run (update_secret_version_wrapped_dek u.id u.dek))
  write_updates us

module _ (current next : Keyring) where
  -- One row: rewrapped, skipped where it opens under the next key already, or an error.
  abbrev pub rewrapped_row : RotationRow → Svc Batch → Outcome Error Sealed → Svc Batch
  rewrapped_row r rest (ok s) = rest >>= λ b. pure (add_update r.id s b)
  rewrapped_row r rest (err e) = do
    already ← attempt (rewrap next (some (wrapped_of r)) (some next))
    elim already [ err f ↦ raise e | ok s ↦ rest >>= λ b. pure (add_skip b) ]

  -- The loop over the rows of a batch.
  unfoldable pub rewrap_rows : List RotationRow → Svc Batch
  unfolding attempt
  rewrap_rows [] = pure (record { updates = []; skipped = 0 })
  rewrap_rows (r ∷ rs) = do
    tried ← attempt (rewrap current (some (wrapped_of r)) (some next))
    rewrapped_row r (rewrap_rows rs) tried

  module _ (dry_run : Bool) (batch_size : ℕ) where
    -- A batch: everything is rewrapped before anything is written, in one transaction.
    unfoldable pub rotate_batch : List RotationRow → Svc ℕ
    rotate_batch rows = do
      b ← rewrap_rows rows
      if dry_run then pure tt else in_tx (write_updates b.updates)
      pure b.skipped

    abbrev pub go_on :
        List RotationRow → (ℕ → Counts → Svc (Option Counts)) → Counts → Svc (Option Counts)
    go_on [] loop c = pure (some c)
    go_on (r ∷ rs) loop c = do
      skipped ← rotate_batch (r ∷ rs)
      loop (last_id r rs) (counted (length (r ∷ rs)) skipped c)

    -- The batches behind a cursor; `none` means that the fuel ran out.
    unfoldable pub rotate_from : ℕ → ℕ → Counts → Svc (Option Counts)
    unfolding rotate_batch
    rotate_from zero cursor c = pure none
    rotate_from (suc fuel) cursor c = do
      rows ←
          on_error (λ _. Error.internal) (run (list_secret_versions_for_rotation cursor batch_size))
      go_on rows (rotate_from fuel) c

    -- `run`: the checks of the flags and of the encoded keys, and the loop from `uuid.Nil`. Interrupts are left out.
    unfoldable pub rotate : Text → Text → ℕ → Svc (Option Counts)
    unfolding rotate_from
    rotate current_encoded next_encoded fuel = do
      check (if ltb batch_size 1 || ltb 10000 batch_size then some Error.internal else none)
      check (if text_eq current_encoded next_encoded then some Error.internal else none)
      total ← on_error (λ _. Error.internal) (run count_secret_versions)
      if total == 0
          then pure (some (record { processed = 0; skipped = 0 }))
          else rotate_from fuel 0 (record { processed = 0; skipped = 0 })
