-- ===== src/Rotate/Dry.antt =====
-- The dry run of a rotation (backend/cmd/rotate-key/main.go).
use vaultly.Prelude.{ℕ, zero, suc, ◌≡◌, sym, true, List, [], ◌∷◌, Text, ◌==◌, Option, none}
use vaultly.World.{World, Svc}
use vaultly.World.Respects.{
  Respects, Respects-bind, Respects-pure, Respects-run, Respects-if, Respects-on_error,
  Respects-check, sameness,
}
use vaultly.Queries.Reads.{IsRead, Changes-of_IsRead}
use vaultly.Queries.Rotation.{RotationRow, list_secret_versions_for_rotation}
use vaultly.Crypto.{Keyring}
use vaultly.Rotate.Defs.{Counts, last_id, rotate_batch, go_on, rotate_from, rotate}
use vaultly.Rotate.Ends.{Respects-rewrap_rows, Respects-count}
use vaultly.Rotate.Page.{page-IsListed}

list_rotation-IsRead : (cursor n : ℕ) → IsRead (list_secret_versions_for_rotation cursor n)
list_rotation-IsRead cursor n = record { at = λ s d a d' e. (page-IsListed cursor n s d d' a e).1 }

module _ (current next : Keyring) (n : ℕ) where
  batch-quiet : (rs : List RotationRow) → Respects sameness (rotate_batch current next true n rs)
  unfolding rotate_batch
  batch-quiet rs =
      Respects-bind _ _ (Respects-rewrap_rows current next rs)
        (λ b. Respects-bind _ _ (Respects-pure tt) (λ _. Respects-pure _))

  go_on-quiet :
      (rows : List RotationRow) (loop : ℕ → Counts → Svc (Option Counts)) (c : Counts)
      → ((cursor : ℕ) (c : Counts) → Respects sameness (loop cursor c))
      → Respects sameness (go_on current next true n rows loop c)
  go_on-quiet [] loop c h = Respects-pure _
  go_on-quiet (r ∷ rs) loop c h =
      Respects-bind _ _ (batch-quiet (r ∷ rs)) (λ skipped. h (last_id r rs) _)

  rotate_from-quiet :
      (fuel cursor : ℕ) (c : Counts)
      → Respects sameness (rotate_from current next true n fuel cursor c)
  unfolding rotate_from
  rotate_from-quiet zero cursor c = Respects-pure none
  rotate_from-quiet (suc fuel) cursor c =
      Respects-bind _ _
        (Respects-on_error _ _
          (Respects-run _ (Changes-of_IsRead _ (list_rotation-IsRead cursor n))))
        (λ rows. go_on-quiet rows _ c (λ cursor c. rotate_from-quiet fuel cursor c))

  -- A dry run of the rotation changes no table, whatever its outcome.
  rotate-dry :
      (current_encoded next_encoded : Text) (fuel : ℕ) (w : World)
      → (rotate current next true n current_encoded next_encoded fuel w).1.db ≡ w.db
  unfolding rotate
  rotate-dry current_encoded next_encoded fuel w =
      let quiet : Respects sameness (rotate current next true n current_encoded next_encoded fuel) =
        Respects-bind _ _ (Respects-check _) (λ _. Respects-bind _ _ (Respects-check _) (λ _.
          Respects-bind _ _ Respects-count (λ total.
            Respects-if (total == 0) _ _ (Respects-pure _) (rotate_from-quiet fuel 0 _)))) in
      sym (quiet.at w)
