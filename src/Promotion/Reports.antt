-- ===== src/Promotion/Reports.antt =====
-- What a promotion's plan says, and where a promotion may go
-- (backend/internal/service/promotion.go).
use vaultly.Prelude.{
  ℕ, ◌≡◌, ◌<◌, sym, subst, refl, Bool, true, some, List, [], ◌∷◌, Text, map, first, ◌==◌, leb,
  arith,
}
use vaultly.Db.{Db, EnvironmentRow}
use vaultly.World.{World, Stamp, stamp, ok, pure, check, translate_db_error}
use vaultly.World.Respects.{Respects, respects_rules, sameness, Respects-check}
use vaultly.World.Returns.{bind-eq-ok, query-eq-ok}
use vaultly.World.Yields.{Yields, Yields-quiet, Yields-known, check_passed, check_refused}
use vaultly.Queries.Projects.{get_environment}
use vaultly.Authz.Laws.{Respects-require_project_role}
use vaultly.Secrets.{Deps, ResolvedSecret}
use vaultly.Secrets.Preserve.{Respects-resolve_environment_values}
use vaultly.Promotion.Defs.{
  PromoteInput, Plan, promote, resolve_environment, changes, to_apply, changed_keys,
}
use vaultly.Promotion.Preserve.{Respects-resolve_environment}

-- The plan tells what is applied: its added and changed keys are the keys that the promotion
-- writes, each as often and in the same order, whether or not the plan shows values.
pub changed_keys-changes :
    (include_values : Bool) (keys : List Text) (targets sources : List ResolvedSecret)
    → changed_keys (changes include_values keys targets sources)
      ≡ map (λ p. p.source.key) (to_apply keys targets sources)
changed_keys-changes v keys targets [] = refl
changed_keys-changes v keys targets (s ∷ ss) =
    ground (arith, changed_keys-changes v keys targets ss)

-- A dry run changes no table, whatever its plan is and whatever it returns.
promote-dry :
    (deps : Deps) (user : ℕ) (input : PromoteInput) (w : World)
    → (promote deps user (record input { dry_run = true }) w).1.db ≡ w.db
unfolding promote
promote-dry deps user input w =
    let quiet : Respects sameness (promote deps user (record input { dry_run = true })) =
      search
        (
          respects_rules, Respects-require_project_role, Respects-resolve_environment,
          Respects-resolve_environment_values,
        )
        depth 20 in
    sym (quiet.at w)

-- An environment of a project.
abbrev pub IsEnvironment : Db → ℕ → ℕ → EnvironmentRow → Type 0
IsEnvironment d project_id id e =
    (first (λ r. r.id == id) d.environments ≡ some e) × (e.project_id ≡ project_id)

get_environment-eq-ok :
    (id : ℕ) (st : Stamp) (d d' : Db) (e : EnvironmentRow)
    → get_environment id st d ≡ ok (e, d')
    → first (λ r. r.id == id) d.environments ≡ some e
unfolding get_environment
get_environment-eq-ok id st d d' e h = ground arith

resolve_environment-eq-ok :
    (project_id id : ℕ) (w : World) {e : EnvironmentRow}
    → (resolve_environment project_id id w).0 ≡ ok e
    → IsEnvironment w.db project_id id e
unfolding resolve_environment pure
resolve_environment-eq-ok project_id id w {e} h =
    let (row, w', read, rest, _) = query-eq-ok translate_db_error (get_environment id) _ w h in
    let (_, passed, rest', _) = bind-eq-ok (check _) _ w' rest in
    let same : row ≡ e = cc in
    let passes = check_passed (row.project_id == project_id) _ w' passed in
    rw (← same) (get_environment-eq-ok id (stamp w) w.db w'.db row read, ground arith)

place :
    (project_id id : ℕ) (d : Db) (w : World) {e : EnvironmentRow}
    → d ≡ w.db
    → (resolve_environment project_id id w).0 ≡ ok e
    → IsEnvironment d project_id id e
place project_id id d w {e} same h =
    subst (λ d. IsEnvironment d project_id id e) (sym same)
      (resolve_environment-eq-ok project_id id w h)

-- A promotion within a project, from an environment to one that comes after it.
abbrev pub GoesForward : PromoteInput → Db → Type 0
GoesForward input d =
    (source target : EnvironmentRow) × IsEnvironment d input.project_id input.source_env_id source
    × IsEnvironment d input.project_id input.target_env_id target
    × (source.rank < target.rank)

promote-Yields :
    (deps : Deps) (user : ℕ) (input : PromoteInput) (d : Db)
    → Yields d (promote deps user input) (λ _ _. GoesForward input d)
unfolding promote
promote-Yields deps user input d =
    Yields-quiet d _ _ (Respects-require_project_role user _ _) (λ _ _ _ _.
      Yields-quiet d _ _ (Respects-check _) (λ _ _ _ _.
        Yields-quiet d _ _ (Respects-resolve_environment _ _) (λ ws source ss s.
          Yields-quiet d _ _ (Respects-resolve_environment _ _) (λ wt target st t.
            Yields-quiet d _ _ (Respects-check _) (λ wc _ _ c.
              let later = check_refused (leb target.rank source.rank) _ wc c in
              Yields-known (GoesForward input d) d _ (
                source,
                target,
                place input.project_id input.source_env_id d ws ss s,
                place input.project_id input.target_env_id d wt st t,
                ground arith,
              ))))))

-- A promotion that returns, dry or not, went from an environment of the project to another one of
-- the same project whose rank is higher.
pub promote-GoesForward :
    (deps : Deps) (user : ℕ) (input : PromoteInput) (w : World) (plan : Plan)
    → (promote deps user input w).0 ≡ ok plan
    → GoesForward input w.db
promote-GoesForward deps user input w plan h =
    (promote-Yields deps user input w.db).at w plan refl h
