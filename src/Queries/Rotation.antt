-- ===== src/Queries/Rotation.antt =====
-- The statements of the rotation of the master key (backend/internal/db/sqlcgen/secrets.sql.go).
use vaultly.Prelude.{
  ℕ, List, [], ◌∷◌, map, keep, update_where, length, take, ltb, ◌==◌, if◌then◌else◌,
}
use vaultly.Db.{Bytes}
use vaultly.World.{ok, Stmt}

pub record RotationRow : Type 0 where
  pub id : ℕ
  pub wrapped_dek : Bytes

abbrev pub place_id : RotationRow → List RotationRow → List RotationRow
place_id r [] = r ∷ []
place_id r (q ∷ qs) = if ltb q.id r.id then q ∷ place_id r qs else r ∷ q ∷ qs

-- `ORDER BY id`
abbrev pub by_id : List RotationRow → List RotationRow
by_id [] = []
by_id (r ∷ rs) = place_id r (by_id rs)

-- `CountSecretVersions`
unfoldable pub count_secret_versions : Stmt ℕ
count_secret_versions st d = ok (length d.versions, d)

-- `ListSecretVersionsForRotation`: the page of rows behind an identifier.
unfoldable pub list_secret_versions_for_rotation : ℕ → ℕ → Stmt (List RotationRow)
list_secret_versions_for_rotation after limit st d = ok (
  take limit (
      by_id (
        map (λ v. record { id = v.id; wrapped_dek = v.wrapped_dek })
          (keep (λ v. ltb after v.id) d.versions))),
  d,
)

-- `UpdateSecretVersionWrappedDEK`
unfoldable pub update_secret_version_wrapped_dek : ℕ → Bytes → Stmt (Unit {0})
update_secret_version_wrapped_dek id wrapped st d = ok (
  tt,
  record d {
    versions = update_where (λ v. v.id == id) (λ v. record v { wrapped_dek = wrapped }) d.versions;
  },
)
