-- ===== src/Authz/Denial.antt =====
-- What the authorizer refuses, and the calls that start with it (backend/internal/service/authz.go).
use vaultly.Prelude.{
  ℕ, ◌≡◌, refl, Bool, false, Option, none, some, if◌then◌else◌, Bool-cases, inl, inr, arith,
}
use vaultly.Domain.{Role, Error, at_least}
use vaultly.World.{
  err, World, Svc, raise, check, ◌>>=◌, run, stamp, translated, on_error, translate_db_error, Stmt,
}
use vaultly.World.Returns.{bind-eq-err}
use vaultly.Queries.Roles.{
  RoleRow, role_in, project_role, environment_role, secret_role, found, get_workspace_role,
  get_workspace_role_by_project, get_workspace_role_by_environment, get_workspace_role_by_secret,
}
use vaultly.Authz.Defs.{
  require_role, require_workspace_role, require_project_role, require_environment_role,
  require_secret_role,
}

-- The rule: a member whose role is at least the minimum.
abbrev pub permits : Option Role → Role → Bool
permits none minimum = false
permits (some r) minimum = at_least r minimum

abbrev pub role_of_row : Option RoleRow → Option Role
role_of_row none = none
role_of_row (some r) = some r.role

-- Outsiders learn nothing of the resource; members of a lower role learn that they may not.
abbrev pub denial : Option Role → Error
denial none = Error.not_found
denial (some r) = Error.forbidden

-- The error of a refused call, where the tables answer or not.
abbrev pub refusal : World → Option Role → Error
refusal w o = if w.env.fails w.tick then Error.internal else denial o

pub record Denies {A : Type 0} (m : Svc A) (w : World) (o : Option Role) : Type 0 where
  pub error : (m w).0 ≡ err (refusal w o)
  pub tables : (m w).1.db ≡ w.db
  pub trail : (m w).1.audit ≡ w.audit

pub Denies-bind :
    {A B : Type 0} {m : Svc A} (f : A → Svc B) (w : World) (o : Option Role)
    → Denies m w o
    → Denies (m >>= f) w o
Denies-bind {m = m} f w o h =
    let e = bind-eq-err m f w h.error in
    record { error = rw e refl; tables = rw e h.tables; trail = rw e h.trail }

require_role-denies :
    (r minimum : Role) → at_least r minimum ≡ false → require_role r minimum ≡ some Error.forbidden
unfolding require_role
require_role-denies r minimum h = ground arith

-- A role query, and the check on what it found.
module _ {A B : Type 0} (q : Stmt A) (role : A → Role) (minimum : Role)
    (f : A → Unit {0} → Svc B) where
  abbrev guarded : Svc B
  guarded = translated (run q) >>= λ a. check (require_role (role a) minimum) >>= f a

  abbrev found_role : Option A → Option Role
  found_role none = none
  found_role (some a) = some (role a)

  guarded_answered :
      (w : World) (o : Option A)
      → w.env.fails w.tick ≡ false
      → q (stamp w) w.db ≡ found w.db o
      → permits (found_role o) minimum ≡ false
      → Denies guarded w (found_role o)
  unfolding ◌>>=◌ on_error run translate_db_error raise
  guarded_answered w none up h p = record {
    error = rw (up, h) refl;
    tables = rw (up, h) refl;
    trail = rw (up, h) refl;
  }
  guarded_answered w (some a) up h p =
      let no = require_role-denies (role a) minimum p in
      record {
        error = rw (up, h, no) refl;
        tables = rw (up, h, no) refl;
        trail = rw (up, h, no) refl;
      }

  guarded-Denies :
      (w : World) (o : Option A)
      → q (stamp w) w.db ≡ found w.db o
      → permits (found_role o) minimum ≡ false
      → Denies guarded w (found_role o)
  unfolding ◌>>=◌ on_error run translate_db_error
  guarded-Denies w o h p = elim (Bool-cases (w.env.fails w.tick)) [
    | inl down ↦ record { error = rw down refl; tables = rw down refl; trail = rw down refl }
    | inr up ↦ guarded_answered w o up h p
  ]

module _ (user_id id : ℕ) (minimum : Role) (w : World) where
  pub Denies-require_workspace_role :
      permits (role_in id user_id w.db) minimum ≡ false
      → Denies (require_workspace_role user_id id minimum) w (role_in id user_id w.db)
  unfolding require_workspace_role get_workspace_role
  Denies-require_workspace_role p =
      elim (role_in id user_id w.db)
          as (λ o.
            o ≡ role_in id user_id w.db
            → permits o minimum ≡ false
            → Denies (require_workspace_role user_id id minimum) w o) [
              | none ↦ λ e p. guarded-Denies _ (λ r. r) minimum _ w none (rw (← e) refl) p
              | some r ↦ λ e p. guarded-Denies _ (λ r. r) minimum _ w (some r) (rw (← e) refl) p
            ]
        refl p

  pub Denies-require_project_role :
      permits (role_of_row (project_role id 0 user_id w.db)) minimum ≡ false
      → Denies
          (require_project_role user_id id minimum)
          w
          (role_of_row (project_role id 0 user_id w.db))
  unfolding require_project_role get_workspace_role_by_project
  Denies-require_project_role p =
      guarded-Denies _ (λ r. r.role) minimum _ w (project_role id 0 user_id w.db) refl p

  pub Denies-require_environment_role :
      permits (role_of_row (environment_role id user_id w.db)) minimum ≡ false
      → Denies
          (require_environment_role user_id id minimum)
          w
          (role_of_row (environment_role id user_id w.db))
  unfolding require_environment_role get_workspace_role_by_environment
  Denies-require_environment_role p =
      guarded-Denies _ (λ r. r.role) minimum _ w (environment_role id user_id w.db) refl p

  pub Denies-require_secret_role :
      permits (role_of_row (secret_role id user_id w.db)) minimum ≡ false
      → Denies
          (require_secret_role user_id id minimum)
          w
          (role_of_row (secret_role id user_id w.db))
  unfolding require_secret_role get_workspace_role_by_secret
  Denies-require_secret_role p =
      guarded-Denies _ (λ r. r.role) minimum _ w (secret_role id user_id w.db) refl p
