-- ===== src/Secrets/Preserve.antt =====
-- The operations on secrets under the relation of the history
-- (backend/internal/service/secret.go).
use vaultly.Prelude.{ℕ, List, [], ◌∷◌, Text, ℤ}
use vaultly.Db.{SecretRow, VersionRow}
use vaultly.World.Respects.{
  Relation, Respects, Changes, Respects-run, Respects-in_tx, Respects-bind, Respects-lift,
  Respects-pure, respects_rules,
}
use vaultly.Queries.Reads.{read_rules}
use vaultly.Queries.Secrets.{update_secret_description, soft_delete_secret}
use vaultly.Crypto.Quiet.{Respects-encrypt}
use vaultly.Authz.Laws.{Respects-require_environment_role, Respects-require_secret_role}
use vaultly.World.{Actor}
use vaultly.Secrets.Defs.{Deps, load_secret}
use vaultly.Secrets.Write.{
  CreateInput, UpdateInput, create, update, update_description, delete, rollback,
}
use vaultly.Secrets.Read.{
  list, reveal, get, list_versions, reveal_version, resolve_rows, resolve_environment_values,
}
use vaultly.Secrets.Effects.{update_secret_description-Settles, soft_delete_secret-Settles}
use vaultly.Secrets.History.{
  evolution, Evolves-Settles, create_tx-Commits, update_tx-Commits, rollback_tx-Commits,
}

update_secret_description-Changes :
    (id : ℕ) (description : Text) → Changes evolution (update_secret_description id description)
update_secret_description-Changes id description = record {
  at = λ s d a d' e.
      Evolves-Settles (λ unique. update_secret_description-Settles s d d' unique id description e);
}

soft_delete_secret-Changes : (id : ℕ) (user : _) → Changes evolution (soft_delete_secret id user)
soft_delete_secret-Changes id user = record {
  at = λ s d a d' e. Evolves-Settles (λ unique. soft_delete_secret-Settles s d d' unique id user e);
}

ruleset writing = (
  respects_rules, Respects-run, Respects-in_tx, read_rules, Respects-encrypt,
  Respects-require_environment_role, Respects-require_secret_role,
)

pub Respects-load_secret : {R : Relation} (id : ℕ) → Respects R (load_secret id)
unfolding load_secret
Respects-load_secret id = search writing depth 9

module _ (deps : Deps) (user_id : ℕ) where
  pub Respects-create : (input : CreateInput) → Respects evolution (create deps user_id input)
  unfolding create
  Respects-create input = search (writing, create_tx-Commits) depth 20

  pub Respects-update : (input : UpdateInput) → Respects evolution (update deps user_id input)
  unfolding update
  Respects-update input = search (writing, Respects-load_secret, update_tx-Commits) depth 20

  pub Respects-update_description :
      (id : ℕ) (description : Text) → Respects evolution (update_description user_id id description)
  unfolding update_description
  Respects-update_description id description =
      search (writing, update_secret_description-Changes) depth 20

  pub Respects-delete : (id : ℕ) (actor : Actor) → Respects evolution (delete user_id id actor)
  unfolding delete
  Respects-delete id actor =
      search (writing, Respects-load_secret, soft_delete_secret-Changes) depth 20

  pub Respects-rollback :
      (id : ℕ) (target : ℤ) (actor : Actor) → Respects evolution (rollback user_id id target actor)
  unfolding rollback
  Respects-rollback id target actor =
      search (writing, Respects-load_secret, rollback_tx-Commits) depth 20

-- The operations that read respect any relation: they change no table.
module _ {R : Relation} (deps : Deps) (user_id : ℕ) where
  pub Respects-list : (id : ℕ) → Respects R (list user_id id)
  unfolding list
  Respects-list id = search writing depth 20

  pub Respects-reveal : (id : ℕ) (actor : Actor) → Respects R (reveal deps user_id id actor)
  unfolding reveal
  Respects-reveal id actor = search (writing, Respects-load_secret) depth 20

  pub Respects-get : (id : ℕ) → Respects R (get user_id id)
  unfolding get
  Respects-get id = search (writing, Respects-load_secret) depth 20

  pub Respects-list_versions : (id : ℕ) → Respects R (list_versions user_id id)
  unfolding list_versions
  Respects-list_versions id = search writing depth 20

  pub Respects-reveal_version :
      (id : ℕ) (version : ℤ) (actor : Actor)
      → Respects R (reveal_version deps user_id id version actor)
  unfolding reveal_version
  Respects-reveal_version id version actor = search (writing, Respects-load_secret) depth 20

pub Respects-resolve_rows :
    {R : Relation} (deps : Deps) (p e : ℕ) (rows : List (SecretRow × VersionRow))
    → Respects R (resolve_rows deps p e rows)
unfolding resolve_rows
Respects-resolve_rows deps p e [] = search writing
Respects-resolve_rows deps p e ((s, v) ∷ rows) =
    Respects-bind _ _ (Respects-lift _) (λ plaintext.
      Respects-bind _ _ (Respects-resolve_rows deps p e rows) (λ rest. Respects-pure _))

pub Respects-resolve_environment_values :
    {R : Relation} (deps : Deps) (p e : ℕ) → Respects R (resolve_environment_values deps p e)
unfolding resolve_environment_values
Respects-resolve_environment_values deps p e = search (writing, Respects-resolve_rows) depth 20
