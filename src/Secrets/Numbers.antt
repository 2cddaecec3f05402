-- ===== src/Secrets/Numbers.antt =====
-- The version numbers of a secret, as the two tables hold them
-- (backend/internal/db/sqlcgen/secrets.sql.go).
use vaultly.Prelude.{
  ℕ, zero, suc, ◌≡◌, ◌≢◌, refl, Bool, true, false, none, some, List, [], ◌∷◌, first, any,
  update_where, ◌==◌, if◌then◌else◌, Bool-cases, inl, inr, arith,
}
use vaultly.Db.{SecretRow, VersionRow}

-- The numbers of the stored versions of a secret, the newest row first.
abbrev pub numbers : ℕ → List VersionRow → List ℕ
numbers id [] = []
numbers id (v ∷ vs) = if v.secret_id == id then v.version ∷ numbers id vs else numbers id vs

-- The pointer of a secret to its current version; 0 where there is no such secret.
abbrev pub version_of : ℕ → List SecretRow → ℕ
version_of id [] = 0
version_of id (s ∷ ss) = if s.id == id then s.current_version else version_of id ss

abbrev pub countdown : ℕ → List ℕ
countdown zero = []
countdown (suc n) = suc n ∷ countdown n

abbrev pub has_id : ℕ → SecretRow → Bool
has_id id s = s.id == id

-- The primary key.
abbrev pub HasUniqueIds : List SecretRow → Type 0
HasUniqueIds [] = Unit
HasUniqueIds (s ∷ ss) = (any (has_id s.id) ss ≡ false) × HasUniqueIds ss

pub version_of_absent :
    (id : ℕ) (ss : List SecretRow) → any (has_id id) ss ≡ false → version_of id ss ≡ 0
version_of_absent id [] h = refl
version_of_absent id (s ∷ ss) h = ground (arith, version_of_absent id ss)

-- An UPDATE whose WHERE clause fixes the identifier, and whose SET clause leaves it alone.
module _ (id : ℕ) (test : SecretRow → Bool) (f : SecretRow → SecretRow)
    (finds : (s : SecretRow) → test s ≡ true → s.id ≡ id)
    (keeps : (s : SecretRow) → (f s).id ≡ s.id) where
  any-update :
      (j : ℕ) (ss : List SecretRow) → any (has_id j) (update_where test f ss) ≡ any (has_id j) ss
  any-update j [] = refl
  any-update j (s ∷ ss) = ground (arith, keeps s, any-update j ss)

  pub HasUniqueIds-update :
      (ss : List SecretRow) → HasUniqueIds ss → HasUniqueIds (update_where test f ss)
  HasUniqueIds-update [] h = tt
  HasUniqueIds-update (s ∷ ss) h =
      (ground (arith, keeps s, any-update s.id ss), HasUniqueIds-update ss h.1)

  first_absent : (ss : List SecretRow) → any (has_id id) ss ≡ false → first test ss ≡ none
  first_absent [] h = refl
  first_absent (s ∷ ss) h = ground (arith, finds s, first_absent ss)

  pub version_of-update_ne :
      (j : ℕ) (ss : List SecretRow)
      → j ≢ id
      → version_of j (update_where test f ss) ≡ version_of j ss
  version_of-update_ne j [] ne = refl
  version_of-update_ne j (s ∷ ss) ne = ground (arith, keeps s, finds s, version_of-update_ne j ss)

  -- The row that the UPDATE finds is the secret's only row.
  pub version_of-update_self :
      (ss : List SecretRow) (s : SecretRow)
      → HasUniqueIds ss
      → first test ss ≡ some s
      → (version_of id ss ≡ s.current_version)
        × (version_of id (update_where test f ss) ≡ (f s).current_version)
  version_of-update_self [] s h e = cc
  version_of-update_self (r ∷ ss) s h e = elim (Bool-cases (test r)) [
    | inl hit ↦ let same : r ≡ s = ground arith in ground (arith, finds r, keeps r, keeps s)
    | inr miss ↦
        let found : first test ss ≡ some s = ground arith in
        elim (Bool-cases (r.id == id)) [
          | inl dup ↦ absurd (ground (arith, first_absent ss))
          | inr other ↦ ground (arith, version_of-update_self ss s h.1 found)
        ]
  ]
