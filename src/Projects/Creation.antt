-- ===== src/Projects/Creation.antt =====
-- What the creation of a project leaves (backend/internal/service/project.go).
use vaultly.Prelude.{
  ℕ, ◌≡◌, refl, sym, ap, subst, ◌∙◌, true, false, ◌&&◌, none, [], ◌∷◌, String, Text, text_eq, codes,
  any, map, ◌==◌, Bool-cases, inl, inr, arith,
}
use vaultly.Domain.{Error, Fields, member, add, has_errors, error_or_nil}
use vaultly.Db.{Db, ProjectRow, EnvironmentRow}
use vaultly.World.{
  World, Outcome, ok, DbError, Stamp, Actor, translate_db_error, check, run, translated,
}
use vaultly.World.Respects.{
  Respects, Respects-check, Respects-record_event, Respects-run, respects_rules, sameness,
}
use vaultly.World.Yields.{
  Yields, Yields-quiet, Yields-run, Yields-in_tx, Yields-then, Yields-pure, check_refused,
}
use vaultly.Validate.{Unicode, matches_slug, slugify, validate_name, validate_description}
use vaultly.Queries.Reads.{IsRead, Changes-of_IsRead}
use vaultly.Queries.Projects.{
  create_project, new_project, create_environment, new_environment, project_slug_exists,
}
use vaultly.Authz.Laws.{Respects-require_workspace_role}
use vaultly.Projects.Defs.{
  Project, project_of, checked_slug, default_environments, create_environments, create_project_tx,
  create_in_workspace, slug_source,
}

has_errors-add : (field message : String) (v : Fields) → has_errors (add field message v) ≡ true
unfolding add
has_errors-add field message [] = refl
has_errors-add field message ((f, m) ∷ v) = ground arith

checked_slug-matches :
    (s : Text) (v : Fields) → has_errors (checked_slug s v) ≡ false → matches_slug s ≡ true
checked_slug-matches [] v h =
    cc (has_errors-add "slug" "could not be derived from the name; provide one explicitly" v)
checked_slug-matches (c ∷ s) v h = elim (Bool-cases (matches_slug (c ∷ s))) [
  | inl y ↦ y
  | inr n ↦
      cc (
        has_errors-add "slug" "must contain only lowercase letters, digits and hyphens" v,
        rw n at h,
      )
]

no_errors :
    (v : Fields) (w : World) {u : Unit {0}}
    → (check (error_or_nil v) w).0 ≡ ok u
    → has_errors v ≡ false
no_errors v w h = check_refused (has_errors v) (Error.validation v) w h

create_project-eq-ok :
    (W : ℕ) (name slug description : Text) (st : Stamp) (d d' : Db) (p : ProjectRow)
    → create_project W name slug description st d ≡ ok (p, d')
    → (p ≡ new_project W name slug description st)
      × (d' ≡ record d { projects = new_project W name slug description st ∷ d.projects })
      × (any (λ p. p.workspace_id == W && text_eq p.slug slug) d.projects ≡ false)
unfolding create_project
create_project-eq-ok W name slug description st d d' p h =
    elim (Bool-cases (any (λ w. w.id == W) d.workspaces)) [
      | inr gone ↦ cc (rw (gone, create_project) at h)
      | inl there ↦ elim (Bool-cases (any (λ p. p.id == st.uuid) d.projects)) [
        | inl used ↦ cc (rw (there, used, create_project) at h)
        | inr fresh ↦
            elim (Bool-cases (any (λ p. p.workspace_id == W && text_eq p.slug slug) d.projects)) [
              | inl taken ↦ cc (rw (there, fresh, taken, create_project) at h)
              | inr free ↦
                  let h' : Path (Outcome DbError (ProjectRow × Db))
                      (ok (
                        new_project W name slug description st,
                        record d { projects = new_project W name slug description st ∷ d.projects },
                      ))
                      (ok (p, d')) =
                    rw (there, fresh, free, create_project) at h in
                  (cc, cc, free)
            ]
      ]
    ]

-- What an environment is, without the identifier and the times that the database adds.
abbrev pub place_of : EnvironmentRow → ℕ × Text × ℕ
place_of e = (e.project_id, e.name, e.rank)

create_environment-eq-ok :
    (P : ℕ) (name : Text) (rank : ℕ) (st : Stamp) (d d' : Db) (e : EnvironmentRow)
    → create_environment P name rank st d ≡ ok (e, d')
    → (map place_of d'.environments ≡ (P, name, rank) ∷ map place_of d.environments)
      × (d'.projects ≡ d.projects)
unfolding create_environment
create_environment-eq-ok P name rank st d d' e h =
    elim (Bool-cases (any (λ p. p.id == P) d.projects)) [
      | inr gone ↦ cc (rw (gone, create_environment) at h)
      | inl there ↦ elim (Bool-cases (any (λ e. e.id == st.uuid) d.environments)) [
        | inl used ↦ cc (rw (there, used, create_environment) at h)
        | inr fresh ↦
            elim (Bool-cases (any (λ e. e.project_id == P && text_eq e.name name) d.environments)) [
              | inl taken ↦ cc (rw (there, fresh, taken, create_environment) at h)
              | inr free ↦
                  let h' : Path (Outcome DbError (EnvironmentRow × Db))
                      (ok (
                        new_environment P name rank st,
                        record d { environments = new_environment P name rank st ∷ d.environments },
                      ))
                      (ok (e, d')) =
                    rw (there, fresh, free, create_environment) at h in
                  let same : record d {
                    environments = new_environment P name rank st ∷ d.environments;
                  }
                      ≡ d' =
                    cc in
                  (
                    ap (λ (d : Db). map place_of d.environments) (sym same),
                    ap (λ (d : Db). d.projects) (sym same),
                  )
            ]
      ]
    ]

-- A project that was created: live, in the workspace, with the fields that were given, a well-formed
-- slug that no other project of the workspace has, deleted ones included, and with the three default
-- environments.
pub record IsCreated (W : ℕ) (name slug description : Text) (d : Db) (x : Project) (d' : Db)
    : Type 0 where
  pub row : ProjectRow
  pub same : x ≡ project_of row
  pub projects : d'.projects ≡ row ∷ d.projects
  pub workspace : row.workspace_id ≡ W
  pub live : row.deleted_at ≡ none
  pub given : (row.name ≡ name) × (row.slug ≡ slug) × (row.description ≡ description)
  pub well_formed : matches_slug row.slug ≡ true
  pub free : any (λ p. p.workspace_id == W && text_eq p.slug row.slug) d.projects ≡ false
  pub environments :
      map place_of d'.environments
      ≡ (row.id, codes "production", 2)
        ∷ (row.id, codes "staging", 1)
        ∷ (row.id, codes "development", 0)
        ∷ map place_of d.environments

-- The environments of a project after the loop over the default ones.
HasDefaults : ℕ → Db → Db → Type 0
HasDefaults P d d' =
    (map place_of d'.environments
      ≡ (P, codes "production", 2)
        ∷ (P, codes "staging", 1)
        ∷ (P, codes "development", 0)
        ∷ map place_of d.environments)
    × (d'.projects ≡ d.projects)

create_environments-Yields :
    (P : ℕ) (d : Db)
    → Yields d (create_environments P default_environments) (λ _ d'. HasDefaults P d d')
unfolding HasDefaults
create_environments-Yields P d = Yields-run d translate_db_error _ _ (λ s1 e1 d1 h1.
    Yields-run d1 translate_db_error _ _ (λ s2 e2 d2 h2.
      Yields-run d2 translate_db_error _ _ (λ s3 e3 d3 h3.
        let (a1, b1) = create_environment-eq-ok P _ _ s1 d d1 e1 h1 in
        let (a2, b2) = create_environment-eq-ok P _ _ s2 d1 d2 e2 h2 in
        let (a3, b3) = create_environment-eq-ok P _ _ s3 d2 d3 e3 h3 in
        Yields-pure d3 tt (a3 ∙ rw (a2, a1) refl, b3 ∙ b2 ∙ b1))))

create_project_tx-Yields :
    (W : ℕ) (name slug description : Text) (d : Db)
    → matches_slug slug ≡ true
    → Yields d (create_project_tx W name slug description) (IsCreated W name slug description d)
unfolding create_project_tx HasDefaults
create_project_tx-Yields W name slug description d good =
    Yields-run d translate_db_error _ _ (λ st p d0 made.
      Yields-then d0 _ _ (create_environments-Yields p.id d0) (λ _ d' (envs, kept).
        let (same, rows, free) = create_project-eq-ok W name slug description st d d0 p made in
        let environments : map place_of d0.environments ≡ map place_of d.environments =
          ap (λ (d : Db). map place_of d.environments) rows in
        let projects : d0.projects ≡ new_project W name slug description st ∷ d.projects =
          ap (λ (d : Db). d.projects) rows in
        Yields-pure d' _ (record {
          row = p;
          same = refl;
          projects = kept ∙ projects ∙ rw same refl;
          workspace = rw same refl;
          live = rw same refl;
          given = (rw same refl, rw same refl, rw same refl);
          well_formed = subst (λ p. matches_slug p.slug ≡ true) (sym same) good;
          free =
              subst
                (λ (q : ProjectRow).
                  any (λ p. p.workspace_id == W && text_eq p.slug q.slug) d.projects ≡ false)
                (sym same) free;
          environments = envs ∙ rw environments refl;
        })))

project_slug_exists-IsRead : (W : ℕ) (slug : Text) → IsRead (project_slug_exists W slug)
unfolding project_slug_exists
project_slug_exists-IsRead W slug = record { at = λ s d a d' e. cc e }

Respects-slug_exists :
    (W : ℕ) (slug : Text) → Respects sameness (translated (run (project_slug_exists W slug)))
Respects-slug_exists W slug =
    search (respects_rules, Respects-run, Changes-of_IsRead, project_slug_exists-IsRead)

module _ (u : Unicode) (user_id W : ℕ) (name slug description : Text) (actor : Actor) where
  -- The name, the slug and the description that are stored.
  abbrev pub stored_name : Text
  stored_name = (validate_name u "name" name []).0

  abbrev pub stored_slug : Text
  stored_slug = slugify u (slug_source stored_name slug)

  abbrev pub stored_description : Text
  stored_description =
      (validate_description "description" description (validate_name u "name" name []).1).0

  create_in_workspace-Yields :
      (d : Db)
      → Yields d
          (create_in_workspace u user_id W name slug description actor)
          (IsCreated W stored_name stored_slug stored_description d)
  unfolding create_in_workspace
  create_in_workspace-Yields d =
      Yields-quiet d _ _ (Respects-require_workspace_role user_id W member) (λ _ _ _ _.
        Yields-quiet d _ _ (Respects-check _) (λ wc _ _ valid.
          let good = checked_slug-matches stored_slug _ (no_errors _ wc valid) in
          Yields-quiet d _ _ (Respects-slug_exists W stored_slug) (λ _ _ _ _.
            Yields-quiet d _ _ (Respects-check _) (λ _ _ _ _. Yields-in_tx d _ _ (λ wt x same ran.
              Yields-quiet _ _ _ (Respects-record_event _) (λ _ _ _ _.
                Yields-pure _ x ((create_project_tx-Yields W _ _ _ d good).at wt x same ran)))))))

  -- A `Create` that returns a project has stored it, as it was returned, in the workspace and live: with
  -- the trimmed name and description, and with the slug derived from the given one or, where that is
  -- empty, from the name, which is well formed and which no project of the workspace had, deleted ones
  -- included; and together with it the environments development, staging and production in this order
  -- of rank.
  pub create_in_workspace-IsCreated :
      (w : World) (x : Project)
      → (create_in_workspace u user_id W name slug description actor w).0 ≡ ok x
      → IsCreated W stored_name stored_slug stored_description w.db x
          (create_in_workspace u user_id W name slug description actor w).1.db
  create_in_workspace-IsCreated w x e = (create_in_workspace-Yields w.db).at w x refl e
