-- ===== src/Promotion/Preserve.antt =====
-- Promotions under the relation of the history (backend/internal/service/promotion.go).
use vaultly.Prelude.{ℕ, Option, none, some, List, [], ◌∷◌, Text, arith}
use vaultly.World.{translate_db_error, stamp, pure}
use vaultly.World.Respects.{
  Relation, Respects, Commits, Respects-run, Respects-in_tx, Respects-bind, Respects-pure,
  respects_rules,
}
use vaultly.World.Returns.{bind-eq-ok, query-eq-ok}
use vaultly.Queries.Reads.{IsRead, read_rules}
use vaultly.Queries.Projects.{get_environment}
use vaultly.Queries.Secrets.{create_secret, bump_secret_version_unchecked}
use vaultly.Crypto.{Sealed}
use vaultly.Crypto.Quiet.{Respects-encrypt}
use vaultly.Authz.Laws.{Respects-require_project_role}
use vaultly.Authz.{Scope}
use vaultly.Secrets.{Deps, ResolvedSecret, add_version}
use vaultly.Secrets.Effects.{create_secret-Settles, bump_secret_version_unchecked-Moves}
use vaultly.Secrets.History.{
  evolution, Evolves-refl, Evolves-trans, Evolves-Settles, Evolves-Moves-Extends,
  add_version-Extends,
}
use vaultly.Secrets.Preserve.{Respects-resolve_environment_values}
use vaultly.Promotion.Defs.{
  resolve_environment, PromoteInput, Plan, Pending, seal_entries, target_secret, apply_entry,
  apply_entries, apply_plan, promote,
}

get_environment-IsRead : (id : ℕ) → IsRead (get_environment id)
unfolding get_environment
get_environment-IsRead id = record { at = λ s d a d' e. ground arith }

module _ {R : Relation} where
  pub Respects-resolve_environment : (p e : ℕ) → Respects R (resolve_environment p e)
  unfolding resolve_environment
  Respects-resolve_environment p e =
      search (respects_rules, Respects-run, read_rules, get_environment-IsRead) depth 9

  pub Respects-seal_entries :
      (deps : Deps) (p t : ℕ) (ps : List Pending) → Respects R (seal_entries deps p t ps)
  unfolding seal_entries
  Respects-seal_entries deps p t [] = search respects_rules
  Respects-seal_entries deps p t (x ∷ ps) =
      Respects-bind _ _ (Respects-encrypt _ _ _)
        (λ s. Respects-bind _ _ (Respects-seal_entries deps p t ps) (λ rest. Respects-pure _))

target_secret-Commits :
    (user p t : ℕ) (x : Pending) (o : Option ResolvedSecret)
    → Commits evolution (target_secret user p t x o)
unfolding target_secret pure
target_secret-Commits user p t x none = record {
  at = λ w a e h.
      let (created, w1, inserted, rest, same) =
        query-eq-ok translate_db_error (create_secret _) _ w e in
      rw same (
        Evolves-Settles
          (λ unique. (create_secret-Settles (stamp w) w.db w1.db unique _ created inserted).1) h);
}
target_secret-Commits user p t x (some r) = record { at = λ w a e h. Evolves-refl w.db h }

-- One entry: a secret to write to, a bump and its row.
apply_entry-Commits :
    (user p t : ℕ) (comment : Text) (x : Pending × Sealed)
    → Commits evolution (apply_entry user p t comment x)
unfolding apply_entry pure
apply_entry-Commits user p t comment (x, s) = record {
  at = λ w a e h.
      let (id, chosen, rest, same) = bind-eq-ok (target_secret user p t x x.target) _ w e in
      let w1 = (target_secret user p t x x.target w).1 in
      let (n, w2, moved, rest', same') =
        query-eq-ok translate_db_error (bump_secret_version_unchecked id (some user)) _ w1 rest in
      let (row, added, _, same'') = bind-eq-ok (add_version id n s comment user) _ w2 rest' in
      let first = (target_secret-Commits user p t x x.target).at w id chosen in
      let (count, m) =
        bump_secret_version_unchecked-Moves id (some user) (stamp w1) w1.db w2.db n
          (first h).0.unique moved in
      let w3 = (add_version id n s comment user w2).1 in
      rw (same, same', same'')
        (Evolves-trans w.db w1.db w3.db first
          (Evolves-Moves-Extends id n w1.db w2.db w3.db count m
            (add_version-Extends id n s comment user w2 added))
          h);
}

apply_entries-Commits :
    (user p t : ℕ) (comment : Text) (xs : List (Pending × Sealed))
    → Commits evolution (apply_entries user p t comment xs)
unfolding apply_entries pure
apply_entries-Commits user p t comment [] = record { at = λ w a e h. Evolves-refl w.db h }
apply_entries-Commits user p t comment (x ∷ xs) = record {
  at = λ w a e h.
      let (u, first, rest, same) = bind-eq-ok (apply_entry user p t comment x) _ w e in
      let w1 = (apply_entry user p t comment x w).1 in
      rw same (
        Evolves-trans w.db w1.db (apply_entries user p t comment xs w1).1.db
          ((apply_entry-Commits user p t comment x).at w u first)
          ((apply_entries-Commits user p t comment xs).at w1 a rest) h);
}

Respects-apply_plan :
    (deps : Deps) (user : ℕ) (input : PromoteInput) (scope : Scope) (plan : Plan)
    (ps : List Pending)
    → Respects evolution (apply_plan deps user input scope plan ps)
unfolding apply_plan
Respects-apply_plan deps user input scope plan ps =
    search (respects_rules, Respects-in_tx, Respects-seal_entries, apply_entries-Commits) depth 20

pub Respects-promote :
    (deps : Deps) (user : ℕ) (input : PromoteInput) → Respects evolution (promote deps user input)
unfolding promote
Respects-promote deps user input =
    search
      (
        respects_rules, Respects-require_project_role, Respects-resolve_environment,
        Respects-resolve_environment_values, Respects-apply_plan,
      )
      depth 20
