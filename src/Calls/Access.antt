-- ===== src/Calls/Access.antt =====
-- Who can do what with secrets (backend/internal/service/authz.go and secret.go).
use vaultly.Prelude.{ℕ, ◌≡◌, false}
use vaultly.World.{World}
use vaultly.Authz.Denial.{
  permits, Denies, Denies-bind, Denies-require_environment_role, Denies-require_secret_role,
  Denies-require_project_role,
}
use vaultly.Secrets.{
  Deps, create, update, update_description, delete, rollback, list, reveal, get, list_versions,
  reveal_version,
}
use vaultly.Promotion.{promote}
use vaultly.Calls.Defs.{
  Call, create_call, update_call, describe_call, delete_call, rollback_call, promote_call,
  list_call, get_call, list_versions_call, reveal_call, reveal_version_call, serve, minimum_role,
  role_for,
}

-- A caller whose role for what the call names is missing or below the call's minimum is refused:
-- the call returns `ErrNotFound` to a caller without a role and `ErrForbidden` to one with a lower
-- role (an internal error where the query of the role fails), and changes no table and no audit
-- record.
pub serve-Denies :
    (deps : Deps) (user : ℕ) (c : Call) (w : World)
    → permits (role_for user c w.db) (minimum_role c) ≡ false
    → Denies (serve deps user c) w (role_for user c w.db)
unfolding serve create update update_description delete rollback promote list get list_versions
    reveal reveal_version
serve-Denies deps user (create_call i) w p =
    Denies-bind _ w _ (Denies-bind _ w _ (Denies-require_environment_role user _ _ w p))
serve-Denies deps user (update_call i) w p =
    Denies-bind _ w _ (Denies-bind _ w _ (Denies-require_secret_role user _ _ w p))
serve-Denies deps user (describe_call id t) w p =
    Denies-bind _ w _ (Denies-bind _ w _ (Denies-require_secret_role user _ _ w p))
serve-Denies deps user (delete_call id a) w p =
    Denies-bind _ w _ (Denies-bind _ w _ (Denies-require_secret_role user _ _ w p))
serve-Denies deps user (rollback_call id v a) w p =
    Denies-bind _ w _ (Denies-bind _ w _ (Denies-require_secret_role user _ _ w p))
serve-Denies deps user (promote_call i) w p =
    Denies-bind _ w _ (Denies-bind _ w _ (Denies-require_project_role user _ _ w p))
serve-Denies deps user (list_call id) w p =
    Denies-bind _ w _ (Denies-bind _ w _ (Denies-require_environment_role user _ _ w p))
serve-Denies deps user (get_call id) w p =
    Denies-bind _ w _ (Denies-bind _ w _ (Denies-require_secret_role user _ _ w p))
serve-Denies deps user (list_versions_call id) w p =
    Denies-bind _ w _ (Denies-bind _ w _ (Denies-require_secret_role user _ _ w p))
serve-Denies deps user (reveal_call id a) w p =
    Denies-bind _ w _ (Denies-bind _ w _ (Denies-require_secret_role user _ _ w p))
serve-Denies deps user (reveal_version_call id v a) w p =
    Denies-bind _ w _ (Denies-bind _ w _ (Denies-require_secret_role user _ _ w p))
