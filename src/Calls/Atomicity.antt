-- ===== src/Calls/Atomicity.antt =====
-- The tables after a call that fails (backend/internal/service/secret.go,
-- backend/internal/service/promotion.go, and `InTx` of backend/internal/service/service.go).
use vaultly.Prelude.{ℕ, ◌≡◌, ℤ, Text, List}
use vaultly.Domain.{Error}
use vaultly.World.{World, Svc, err, ◌>>=◌, pure, Actor}
use vaultly.World.Respects.{Respects, respects_rules, Respects-run, sameness}
use vaultly.World.Atomic.{Atomic, Atomic-last, Atomic-of_sameness, Total-pure, atomic_rules}
use vaultly.Queries.Reads.{read_rules}
use vaultly.Crypto.Quiet.{Respects-encrypt}
use vaultly.Authz.{Scope}
use vaultly.Authz.Laws.{
  Respects-require_environment_role, Respects-require_secret_role, Respects-require_project_role,
}
use vaultly.Secrets.{
  Deps, CreateInput, UpdateInput, create, update, update_description, delete, rollback,
}
use vaultly.Secrets.Preserve.{
  Respects-load_secret, Respects-list, Respects-reveal, Respects-get, Respects-list_versions,
  Respects-reveal_version, Respects-resolve_environment_values,
}
use vaultly.Promotion.{PromoteInput, Plan, Pending, apply_plan, promote}
use vaultly.Promotion.Preserve.{Respects-resolve_environment, Respects-seal_entries}
use vaultly.Calls.Defs.{
  Call, create_call, update_call, describe_call, delete_call, rollback_call, promote_call,
  list_call, get_call, list_versions_call, reveal_call, reveal_version_call, serve,
}

ruleset failing = (
  atomic_rules, respects_rules, Respects-run, read_rules, Respects-encrypt,
  Respects-require_environment_role, Respects-require_secret_role, Respects-require_project_role,
  Respects-load_secret, Respects-resolve_environment, Respects-resolve_environment_values,
  Respects-seal_entries,
)

module _ (deps : Deps) (user : ℕ) where
  Atomic-create : (i : CreateInput) → Atomic (create deps user i)
  unfolding create
  Atomic-create i = search failing depth 20

  Atomic-update : (i : UpdateInput) → Atomic (update deps user i)
  unfolding update
  Atomic-update i = search failing depth 20

  Atomic-update_description : (id : ℕ) (t : Text) → Atomic (update_description user id t)
  unfolding update_description
  Atomic-update_description id t = search failing depth 20

  Atomic-delete : (id : ℕ) (a : Actor) → Atomic (delete user id a)
  unfolding delete
  Atomic-delete id a = search failing depth 20

  Atomic-rollback : (id : ℕ) (v : ℤ) (a : Actor) → Atomic (rollback user id v a)
  unfolding rollback
  Atomic-rollback id v a = search failing depth 20

  Atomic-apply_plan :
      (i : PromoteInput) (s : Scope) (p : Plan) (ps : List Pending)
      → Atomic (apply_plan deps user i s p ps)
  unfolding apply_plan
  Atomic-apply_plan i s p ps = search failing depth 20

  Atomic-promote : (i : PromoteInput) → Atomic (promote deps user i)
  unfolding promote
  Atomic-promote i = search (failing, Atomic-apply_plan) depth 20

done : {A : Type 0} (m : Svc A) → Atomic m → Atomic (m >>= λ _. pure tt)
done m p = Atomic-last m _ p (λ _. Total-pure tt)

read : {A : Type 0} (m : Svc A) → Respects sameness m → Atomic (m >>= λ _. pure tt)
read m p = done m (Atomic-of_sameness m p)

serve-Atomic : (deps : Deps) (user : ℕ) (c : Call) → Atomic (serve deps user c)
unfolding serve
serve-Atomic deps user (create_call i) = done _ (Atomic-create deps user i)
serve-Atomic deps user (update_call i) = done _ (Atomic-update deps user i)
serve-Atomic deps user (describe_call id t) = done _ (Atomic-update_description deps user id t)
serve-Atomic deps user (delete_call id a) = done _ (Atomic-delete deps user id a)
serve-Atomic deps user (rollback_call id v a) = done _ (Atomic-rollback deps user id v a)
serve-Atomic deps user (promote_call i) = done _ (Atomic-promote deps user i)
serve-Atomic deps user (list_call id) = read _ (Respects-list deps user id)
serve-Atomic deps user (get_call id) = read _ (Respects-get deps user id)
serve-Atomic deps user (list_versions_call id) = read _ (Respects-list_versions deps user id)
serve-Atomic deps user (reveal_call id a) = read _ (Respects-reveal deps user id a)
serve-Atomic deps user (reveal_version_call id v a) =
    read _ (Respects-reveal_version deps user id v a)

-- A call that returns an error has left the tables as they were, wherever it failed: in a check, a
-- statement, a draw of random bytes or a transaction, its commit included.
pub serve-eq-err :
    (deps : Deps) (user : ℕ) (c : Call) (w : World) (e : Error)
    → (serve deps user c w).0 ≡ err e
    → (serve deps user c w).1.db ≡ w.db
serve-eq-err deps user c = (serve-Atomic deps user c).at
