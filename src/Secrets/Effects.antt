-- ===== src/Secrets/Effects.antt =====
-- What each statement on secrets and versions does to the version numbers
-- (backend/internal/db/sqlcgen/secrets.sql.go).
use vaultly.Prelude.{
  ℕ, suc, ◌+◌, ◌≡◌, refl, Bool, true, false, ◌&&◌, Option, some, List, [], ◌∷◌, Text, ℤ, is_nat,
  first, any, update_where, ◌==◌, if◌then◌else◌, Bool-cases, Option-cases, inl, inr, arith,
}
use vaultly.Db.{Db, SecretRow, VersionRow}
use vaultly.World.{ok, Stamp}
use vaultly.Queries.Secrets.{
  is_secret, bumped, bump_where, bump_secret_version, bump_secret_version_unchecked,
  CreateSecretParams, new_secret, create_secret, update_secret_description, soft_delete_secret,
}
use vaultly.Queries.Versions.{CreateVersionParams, new_version, create_secret_version}
use vaultly.Secrets.Numbers.{
  numbers, version_of, has_id, HasUniqueIds, version_of_absent, HasUniqueIds-update,
  version_of-update_ne, version_of-update_self,
}

-- The pointer of `id` becomes `n`, and nothing else that the history is made of changes.
pub record Moves (id n : ℕ) (d d' : Db) : Type 0 where
  pub versions : d'.versions ≡ d.versions
  pub unique : HasUniqueIds d'.secrets
  pub pointer : (j : ℕ) → version_of j d'.secrets ≡ (if j == id then n else version_of j d.secrets)

module _ (id : ℕ) (test : SecretRow → Bool) (finds : (s : SecretRow) → test s ≡ true → s.id ≡ id)
    (user : Option ℕ) (st : Stamp) (d : Db) (unique : HasUniqueIds d.secrets) where
  pointer-bump :
      (s : SecretRow) (j : ℕ)
      → first test d.secrets ≡ some s
      → version_of j (update_where test (bumped user st) d.secrets)
        ≡ (if j == id then suc (version_of id d.secrets) else version_of j d.secrets)
  pointer-bump s j e =
      let (now, later) =
        version_of-update_self id test (bumped user st) finds (λ r. refl) d.secrets s unique e in
      elim (Bool-cases (j == id)) [
        | inl same ↦ let eq : j ≡ id = ground arith in rw (same, eq) (rw (later, now) (omega arith))
        | inr other ↦ rw other (
            version_of-update_ne id test (bumped user st) finds (λ r. refl) j d.secrets
              (ground arith))
      ]

  -- A bump adds one to the pointer of the secret that it names.
  pub bump_where-Moves :
      (n : ℕ) (d' : Db)
      → bump_where test user st d ≡ ok (n, d')
      → (n ≡ suc (version_of id d.secrets)) × Moves id n d d'
  bump_where-Moves n d' h = elim (Option-cases (first test d.secrets)) [
    | inl missing ↦ cc (rw (missing, bump_where) at h)
    | inr (s, e) ↦
        let (now, later) =
          version_of-update_self id test (bumped user st) finds (λ r. refl) d.secrets s unique e in
        let new : Db = record d { secrets = update_where test (bumped user st) d.secrets } in
        let result : (s.current_version + 1 ≡ n) × (new ≡ d') = ground arith in
        let count : n ≡ suc (version_of id d.secrets) = rw now (ground arith) in
        (
          count,
          rw (← result.1) (record {
            versions = refl;
            unique =
                HasUniqueIds-update id test (bumped user st) finds (λ r. refl) d.secrets unique;
            pointer = λ j. rw count (pointer-bump s j e);
          }),
        )
  ]

pub finds_secret : (id : ℕ) (s : SecretRow) → is_secret id s ≡ true → s.id ≡ id
finds_secret id s h = ground arith

-- What the two bumps of the queries have in common.
module _ (id : ℕ) (user : Option ℕ) (st : Stamp) (d d' : Db) (n : ℕ)
    (unique : HasUniqueIds d.secrets) where
  pub bump_secret_version_unchecked-Moves :
      bump_secret_version_unchecked id user st d ≡ ok (n, d')
      → (n ≡ suc (version_of id d.secrets)) × Moves id n d d'
  unfolding bump_secret_version_unchecked
  bump_secret_version_unchecked-Moves h =
      bump_where-Moves id (is_secret id) (finds_secret id) user st d unique n d' h

  pub bump_secret_version-Moves :
      (expected : ℤ)
      → bump_secret_version id expected user st d ≡ ok (n, d')
      → (n ≡ suc (version_of id d.secrets)) × Moves id n d d'
  unfolding bump_secret_version
  bump_secret_version-Moves expected h =
      bump_where-Moves id (λ s. is_secret id s && is_nat expected s.current_version)
        (λ s t. finds_secret id s (ground arith)) user st d unique n d' h

version_of-update_same :
    (test : SecretRow → Bool) (f : SecretRow → SecretRow)
    → ((s : SecretRow) → ((f s).id ≡ s.id) × ((f s).current_version ≡ s.current_version))
    → (j : ℕ) (ss : List SecretRow) → version_of j (update_where test f ss) ≡ version_of j ss
version_of-update_same test f keeps j [] = refl
version_of-update_same test f keeps j (s ∷ ss) =
    ground (arith, keeps s, version_of-update_same test f keeps j ss)

-- A statement on secrets that leaves the history alone.
pub record Settles (d d' : Db) : Type 0 where
  pub versions : d'.versions ≡ d.versions
  pub unique : HasUniqueIds d'.secrets
  pub pointer : (j : ℕ) → version_of j d'.secrets ≡ version_of j d.secrets

module _ (st : Stamp) (d d' : Db) (unique : HasUniqueIds d.secrets) where
  -- A new secret has no version yet: its pointer stands at 0, as before.
  pub create_secret-Settles :
      (p : CreateSecretParams) (row : SecretRow)
      → create_secret p st d ≡ ok (row, d')
      → (version_of row.id d'.secrets ≡ 0) × Settles d d'
  unfolding create_secret
  create_secret-Settles p row h =
      let fresh : any (has_id st.uuid) d.secrets ≡ false = ground arith in
      let result : (new_secret p st ≡ row)
          × (record d { secrets = new_secret p st ∷ d.secrets } ≡ d') =
        ground arith in
      rw (← result.0, ← result.1)
        (
          ground arith,
          record {
            versions = refl;
            unique = (fresh, unique);
            pointer = λ j. ground (arith, version_of_absent st.uuid d.secrets fresh);
          },
        )

  module _ (id : ℕ) where
    -- An UPDATE of a secret's row that leaves its identifier and its pointer.
    update-Settles :
        (f : SecretRow → SecretRow)
        → ((s : SecretRow) → ((f s).id ≡ s.id) × ((f s).current_version ≡ s.current_version))
        → record d { secrets = update_where (is_secret id) f d.secrets } ≡ d'
        → Settles d d'
    update-Settles f keeps e = rw (← e) (record {
      versions = refl;
      unique =
          HasUniqueIds-update id (is_secret id) f (finds_secret id) (λ s. (keeps s).0) d.secrets
            unique;
      pointer = λ j. version_of-update_same (is_secret id) f keeps j d.secrets;
    })

    pub update_secret_description-Settles :
        (description : Text)
        → update_secret_description id description st d ≡ ok (tt, d')
        → Settles d d'
    unfolding update_secret_description
    update_secret_description-Settles description h =
        update-Settles (λ s. record s { description = description; updated_at = st.time })
          (λ s. (refl, refl)) (cc h)

    pub soft_delete_secret-Settles :
        (user : Option ℕ) → soft_delete_secret id user st d ≡ ok (tt, d') → Settles d d'
    unfolding soft_delete_secret
    soft_delete_secret-Settles user h =
        update-Settles (λ s. record s { deleted_at = some st.time; updated_by = user })
          (λ s. (refl, refl)) (ground arith)

-- A new row of the history of `id`: its number joins the front of that secret's numbers.
pub record Extends (id n : ℕ) (d d' : Db) : Type 0 where
  pub secrets : d'.secrets ≡ d.secrets
  pub stored :
      (v : VersionRow) × (v.secret_id ≡ id) × (v.version ≡ n) × (d'.versions ≡ v ∷ d.versions)

pub create_secret_version-Extends :
    (p : CreateVersionParams) (st : Stamp) (d d' : Db) (row : VersionRow)
    → create_secret_version p st d ≡ ok (row, d')
    → Extends p.secret_id p.version d d'
unfolding create_secret_version
create_secret_version-Extends p st d d' row h =
    let result : record d { versions = new_version p st ∷ d.versions } ≡ d' = ground arith in
    rw (← result) (record { secrets = refl; stored = (new_version p st, refl, refl, refl) })

pub numbers-Extends :
    (id n j : ℕ) (d d' : Db)
    → Extends id n d d'
    → numbers j d'.versions ≡ (if id == j then n ∷ numbers j d.versions else numbers j d.versions)
numbers-Extends id n j d d' x = let (v, same_id, same_n, e) = x.stored in rw e (ground arith)
