-- ===== src/Queries/Reads.antt =====
-- The statements that only read: whatever they return, the tables stay as they are.
use vaultly.Prelude.{
  ℕ, ◌≡◌, subst, first, Option-cases, inl, inr, Option, none, some, Text, ℤ, arith,
}
use vaultly.Db.{Db, UserRow}
use vaultly.Queries.Accounts.{has_email}
use vaultly.World.{Outcome, DbError, ok, Stmt, Stamp}
use vaultly.World.Respects.{Relation, Changes}
use vaultly.Queries.Secrets.{get_secret, list_secrets, secret_key_exists}
use vaultly.Queries.Versions.{
  get_secret_version, get_current_secret_version, list_secret_versions, list_current_secret_values,
}
use vaultly.Queries.Roles.{
  get_workspace_role, get_workspace_role_by_project, get_workspace_role_by_environment,
  get_workspace_role_by_secret, get_workspace_role_by_token, found,
}
use vaultly.Queries.Members.{count_workspace_owners, get_user_by_email}
use vaultly.Validate.{Unicode}

pub record IsRead {A : Type 0} (q : Stmt A) : Type 0 where
  pub at : (s : Stamp) (d : Db) (a : A) (d' : Db) → q s d ≡ ok (a, d') → d ≡ d'

pub Changes-of_IsRead : {R : Relation} {A : Type 0} (q : Stmt A) → IsRead q → Changes R q
Changes-of_IsRead {R} q r = record {
  at = λ s d a d' e. subst (λ x. R.Rel d x) (r.at s d a d' e) (R.same d);
}

found-eq-ok : {A : Type 0} (o : Option A) (d d' : Db) (a : A) → found d o ≡ ok (a, d') → d ≡ d'
found-eq-ok none d d' a e = cc
found-eq-ok (some b) d d' a e = cc

pub get_secret-IsRead : (id : ℕ) → IsRead (get_secret id)
unfolding get_secret
get_secret-IsRead id = record { at = λ s d a d' e. ground arith }

pub list_secrets-IsRead : (id : ℕ) → IsRead (list_secrets id)
unfolding list_secrets
list_secrets-IsRead id = record { at = λ s d a d' e. cc e }

pub secret_key_exists-IsRead : (id : ℕ) (key : Text) → IsRead (secret_key_exists id key)
unfolding secret_key_exists
secret_key_exists-IsRead id key = record { at = λ s d a d' e. cc e }

pub get_secret_version-IsRead : (id : ℕ) (v : ℤ) → IsRead (get_secret_version id v)
unfolding get_secret_version
get_secret_version-IsRead id v = record { at = λ s d a d' e. ground arith }

pub get_current_secret_version-IsRead : (id : ℕ) → IsRead (get_current_secret_version id)
unfolding get_current_secret_version
get_current_secret_version-IsRead id = record { at = λ s d a d' e. ground arith }

pub list_secret_versions-IsRead : (id : ℕ) → IsRead (list_secret_versions id)
unfolding list_secret_versions
list_secret_versions-IsRead id = record { at = λ s d a d' e. cc e }

pub list_current_secret_values-IsRead : (id : ℕ) → IsRead (list_current_secret_values id)
unfolding list_current_secret_values
list_current_secret_values-IsRead id = record { at = λ s d a d' e. cc e }

module _ (id user_id : ℕ) where
  pub get_workspace_role-IsRead : IsRead (get_workspace_role id user_id)
  unfolding get_workspace_role
  get_workspace_role-IsRead = record { at = λ s d a d' e. found-eq-ok _ d d' a e }

  pub get_workspace_role_by_project-IsRead : IsRead (get_workspace_role_by_project id user_id)
  unfolding get_workspace_role_by_project
  get_workspace_role_by_project-IsRead = record { at = λ s d a d' e. found-eq-ok _ d d' a e }

  pub get_workspace_role_by_environment-IsRead :
      IsRead (get_workspace_role_by_environment id user_id)
  unfolding get_workspace_role_by_environment
  get_workspace_role_by_environment-IsRead = record { at = λ s d a d' e. found-eq-ok _ d d' a e }

  pub get_workspace_role_by_secret-IsRead : IsRead (get_workspace_role_by_secret id user_id)
  unfolding get_workspace_role_by_secret
  get_workspace_role_by_secret-IsRead = record { at = λ s d a d' e. found-eq-ok _ d d' a e }

  pub get_workspace_role_by_token-IsRead : IsRead (get_workspace_role_by_token id user_id)
  unfolding get_workspace_role_by_token
  get_workspace_role_by_token-IsRead = record { at = λ s d a d' e. found-eq-ok _ d d' a e }

pub count_workspace_owners-IsRead : (id : ℕ) → IsRead (count_workspace_owners id)
unfolding count_workspace_owners
count_workspace_owners-IsRead id = record { at = λ s d a d' e. cc e }

pub get_user_by_email-IsRead : (u : Unicode) (email : Text) → IsRead (get_user_by_email u email)
unfolding get_user_by_email
get_user_by_email-IsRead u email = record { at = λ s d a d' e. ground arith }

pub get_user_by_email-eq-ok :
    (v : Unicode) (email : Text) (st : Stamp) (d d' : Db) (r : UserRow)
    → get_user_by_email v email st d ≡ ok (r, d')
    → first (has_email v email) d.users ≡ some r
unfolding get_user_by_email
get_user_by_email-eq-ok v email st d d' r h =
    elim (Option-cases (first (has_email v email) d.users)) [
      | inl nobody ↦ cc (rw (nobody, get_user_by_email) at h)
      | inr (u, e) ↦
          let h' : Path (Outcome DbError (UserRow × Db)) (ok (u, d)) (ok (r, d')) =
            rw (e, get_user_by_email) at h in
          cc
    ]

pub ruleset read_rules = (
  count_workspace_owners-IsRead, get_user_by_email-IsRead, Changes-of_IsRead, get_secret-IsRead,
  list_secrets-IsRead, secret_key_exists-IsRead, get_secret_version-IsRead,
  get_current_secret_version-IsRead, list_secret_versions-IsRead, list_current_secret_values-IsRead,
  get_workspace_role-IsRead, get_workspace_role_by_project-IsRead,
  get_workspace_role_by_environment-IsRead, get_workspace_role_by_secret-IsRead,
  get_workspace_role_by_token-IsRead,
)
