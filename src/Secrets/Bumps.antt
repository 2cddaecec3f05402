-- ===== src/Secrets/Bumps.antt =====
-- What the bump of `Update` finds and leaves (`BumpSecretVersion` of
-- backend/internal/db/sqlcgen/secrets.sql.go).
use vaultly.Prelude.{
  ℕ, ◌≡◌, subst, refl, Bool, true, ◌&&◌, Option, some, List, [], ◌∷◌, ℤ, is_nat, is_positive, first,
  update_where, if◌then◌else◌, Bool-cases, Option-cases, inl, inr, arith,
}
use vaultly.Db.{Db, SecretRow}
use vaultly.World.{World, ok, Stamp, stamp, translate_db_error}
use vaultly.World.Returns.{on_error-eq-ok}
use vaultly.Queries.Secrets.{
  is_secret, bumped, bump_where, bump_secret_version, bump_secret_version_unchecked,
}
use vaultly.Secrets.Numbers.{version_of, HasUniqueIds, version_of-update_self}
use vaultly.Secrets.Effects.{finds_secret}
use vaultly.Secrets.Latest.{first-update}
use vaultly.Secrets.Write.{stale, bump}

-- The live row of a secret before has a live row after, of the same project, environment and key.
abbrev pub Keeps : ℕ → Db → Db → Type 0
Keeps id d d' =
    (row : SecretRow)
    → first (is_secret id) d.secrets ≡ some row
    → (row' : SecretRow) × (first (is_secret id) d'.secrets ≡ some row')
      × (row'.project_id ≡ row.project_id)
      × (row'.environment_id ≡ row.environment_id)
      × (row'.key ≡ row.key)

module _ (id : ℕ) (test : SecretRow → Bool) (user : Option ℕ) (st : Stamp) (d d' : Db) (n : ℕ) where
  bump_where-Keeps : bump_where test user st d ≡ ok (n, d') → Keeps id d d'
  bump_where-Keeps h row e = elim (Option-cases (first test d.secrets)) [
    | inl missing ↦ cc (rw (missing, bump_where) at h)
    | inr (s, f) ↦
        let new : Db = record d { secrets = update_where test (bumped user st) d.secrets } in
        let result : new ≡ d' = ground arith in
        (
          if test row then bumped user st row else row,
          subst
              (λ x.
                first (is_secret id) x.secrets
                ≡ some (if test row then bumped user st row else row))
              result
              (first-update (is_secret id) test (bumped user st) (λ r. refl) d.secrets row e),
          ground arith,
          ground arith,
          ground arith,
        )
  ]

  bump_where_found :
      bump_where test user st d ≡ ok (n, d') → (s : SecretRow) × (first test d.secrets ≡ some s)
  bump_where_found h = elim (Option-cases (first test d.secrets)) [
    | inl missing ↦ cc (rw (missing, bump_where) at h)
    | inr (s, f) ↦ (s, f)
  ]

first_passes :
    (test : SecretRow → Bool) (ss : List SecretRow) (s : SecretRow)
    → first test ss ≡ some s
    → test s ≡ true
first_passes test [] s e = cc
first_passes test (r ∷ ss) s e = ground (arith, first_passes test ss s)

bump_expected :
    (id : ℕ) (expected : ℤ) (user : Option ℕ) (st : Stamp) (d d' : Db) (n : ℕ)
    → HasUniqueIds d.secrets
    → bump_secret_version id expected user st d ≡ ok (n, d')
    → is_nat expected (version_of id d.secrets) ≡ true
unfolding bump_secret_version
bump_expected id expected user st d d' n unique h =
    let test : SecretRow → Bool = λ s. is_secret id s && is_nat expected s.current_version in
    let (s, f) = bump_where_found id test user st d d' n h in
    let passes = first_passes test d.secrets s f in
    let (now, _) =
      version_of-update_self id test (λ r. r) (λ r t. finds_secret id r (ground arith)) (λ r. refl)
        d.secrets s unique f in
    rw now (ground arith)

module _ (id : ℕ) (expected : ℤ) (user_id : ℕ) (w : World) {n : ℕ} where
  pub bump-Keeps :
      (bump id expected user_id w).0 ≡ ok n → Keeps id w.db (bump id expected user_id w).1.db
  unfolding bump bump_secret_version bump_secret_version_unchecked
  bump-Keeps h = elim (Bool-cases (is_positive expected)) [
    | inl checked ↦
        let (d, e, db) =
          on_error-eq-ok stale (bump_secret_version id expected (some user_id)) w
            (rw (checked, bump) at h) in
        rw (checked, db) (bump_where-Keeps id _ (some user_id) (stamp w) w.db d n e)
    | inr unchecked ↦
        let (d, e, db) =
          on_error-eq-ok translate_db_error (bump_secret_version_unchecked id (some user_id)) w
            (rw (unchecked, bump) at h) in
        rw (unchecked, db) (bump_where-Keeps id _ (some user_id) (stamp w) w.db d n e)
  ]

  pub bump_was_expected :
      HasUniqueIds w.db.secrets
      → (bump id expected user_id w).0 ≡ ok n
      → is_positive expected ≡ true
      → is_nat expected (version_of id w.db.secrets) ≡ true
  unfolding bump
  bump_was_expected unique h checked =
      let (d, e, db) =
        on_error-eq-ok stale (bump_secret_version id expected (some user_id)) w
          (rw (checked, bump) at h) in
      bump_expected id expected (some user_id) (stamp w) w.db d n unique e
