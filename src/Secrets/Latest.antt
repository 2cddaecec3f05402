-- ===== src/Secrets/Latest.antt =====
-- The current version of a secret with a sound history (`GetCurrentSecretVersion` of
-- backend/internal/db/sqlcgen/secrets.sql.go), and what a bump leaves of its identity.
use vaultly.Prelude.{
  ℕ, zero, suc, ◌≡◌, ◌≤◌, refl, Bool, Option, none, some, List, [], ◌∷◌, first, update_where, ◌==◌,
  if◌then◌else◌, Bool-cases, Option-cases, inl, inr, arith,
}
use vaultly.Db.{SecretRow, VersionRow}
use vaultly.Queries.Versions.{latest, newer}
use vaultly.Secrets.Numbers.{numbers, countdown}

newer-bound :
    (n : ℕ) (v : VersionRow) (o : Option VersionRow) (u : VersionRow)
    → v.version ≤ n
    → ((t : VersionRow) → o ≡ some t → t.version ≤ n)
    → newer v o ≡ some u
    → u.version ≤ n
newer-bound n v none u hv ho e = ground arith
newer-bound n v (some t) u hv ho e = let ht = ho t refl in ground arith

-- No row of a secret is newer than its count of rows.
latest-bound :
    (id n : ℕ) (vs : List VersionRow) (u : VersionRow)
    → numbers id vs ≡ countdown n
    → latest id vs ≡ some u
    → u.version ≤ n
latest-bound id n [] u h e = cc
latest-bound id zero (v ∷ vs) u h e = ground (arith, latest-bound id zero vs u)
latest-bound id (suc m) (v ∷ vs) u h e = elim (Bool-cases (v.secret_id == id)) [
  | inl same ↦
      let eq : v.version ∷ numbers id vs ≡ suc m ∷ countdown m = ground arith in
      let now : v.version ≡ suc m = ground arith in
      let later : numbers id vs ≡ countdown m = ground arith in
      newer-bound (suc m) v (latest id vs) u (omega arith)
        (λ t f. let b = latest-bound id m vs t later f in omega arith) (ground arith)
  | inr other ↦ latest-bound id (suc m) vs u (ground arith) (ground arith)
]

-- The row that joins the front of a sound history is the current version.
pub latest_cons :
    (id n : ℕ) (v : VersionRow) (vs : List VersionRow)
    → v.secret_id ≡ id
    → v.version ≡ suc n
    → numbers id vs ≡ countdown n
    → latest id (v ∷ vs) ≡ some v
latest_cons id n v vs same count h = elim (Option-cases (latest id vs)) [
  | inl empty ↦ ground arith
  | inr (u, e) ↦ let b = latest-bound id n vs u h e in ground arith
]

-- Under an UPDATE that keeps what the search tests, the search finds the updated row.
pub first-update :
    (p test : SecretRow → Bool) (f : SecretRow → SecretRow)
    → ((s : SecretRow) → p (f s) ≡ p s)
    → (ss : List SecretRow) (s : SecretRow) → first p ss ≡ some s
    → first p (update_where test f ss) ≡ some (if test s then f s else s)
first-update p test f keeps [] s e = cc
first-update p test f keeps (r ∷ ss) s e = ground (arith, keeps r, first-update p test f keeps ss s)
