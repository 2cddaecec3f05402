-- ===== src/Workspaces/Founding.antt =====
-- What the creation of a workspace leaves (backend/internal/service/workspace.go).
use vaultly.Prelude.{
  ℕ, zero, suc, ◌≡◌, refl, sym, ap, subst, ◌∙◌, Bool, true, false, [], ◌∷◌, ◌++◌, Text, text_eq,
  codes, decimal, any,
}
use vaultly.Domain.{owner}
use vaultly.Db.{Db, WorkspaceRow}
use vaultly.World.{World, ok, Actor, translate_db_error, pure, run, translated}
use vaultly.World.Respects.{
  Respects, Respects-check, Respects-record_event, Respects-run, respects_rules, sameness,
}
use vaultly.World.Yields.{Yields, Yields-quiet, Yields-run, Yields-in_tx, Yields-pure, Yields-then}
use vaultly.Validate.{Unicode, validate_name}
use vaultly.Queries.Accounts.{workspace_slug_exists, WorkspaceWithRole}
use vaultly.Queries.Reads.{IsRead, Changes-of_IsRead}
use vaultly.Sessions.{new_uuid}
use vaultly.Sessions.Registers.{create_workspace-eq-ok, add_workspace_member-tables}
use vaultly.Workspaces.Adding.{HoldsRole, add_workspace_member-HoldsRole}
use vaultly.Workspaces.Create.{
  base_slug, try_slugs, unique_workspace_slug, create_workspace_tx, create_of_user,
}

workspace_slug_exists-IsRead : (slug : Text) → IsRead (workspace_slug_exists slug)
unfolding workspace_slug_exists
workspace_slug_exists-IsRead slug = record { at = λ s d a d' e. cc e }

Respects-slug_exists :
    (slug : Text) → Respects sameness (translated (run (workspace_slug_exists slug)))
Respects-slug_exists slug =
    search (respects_rules, Respects-run, Changes-of_IsRead, workspace_slug_exists-IsRead)

Respects-fresh : Respects sameness new_uuid
unfolding new_uuid
Respects-fresh = record { at = λ w. refl }

-- The base itself or the base with something behind it.
abbrev pub Extends : Text → Text → Type 0
Extends base slug = (t : Text) × (slug ≡ base ++ t)

unextended : (s : Text) → s ≡ s ++ []
unextended [] = refl
unextended (c ∷ s) = ap (λ s. c ∷ s) (unextended s)

module _ (uuid_string : ℕ → Text) (base : Text) where
  -- The loop writes nothing, and its slug extends the base.
  try_slugs-Extends :
      (left : ℕ) (candidate : Text) (number : ℕ) (d : Db)
      → Extends base candidate
      → Yields d
          (try_slugs uuid_string base left candidate number)
          (λ s d'. Extends base s × (d' ≡ d))
  try_slugs-Extends zero candidate number d e =
      Yields-quiet d _ _ Respects-fresh (λ _ id _ _. Yields-pure d _ ((_, refl), refl))
  try_slugs-Extends (suc left) candidate number d e =
      Yields-quiet d _ _ (Respects-slug_exists candidate)
        (λ _ exists _ _. chosen exists (try_slugs-Extends left _ (suc number) d (_, refl)))
    where
      chosen :
          (exists : Bool)
          → Yields d
              (try_slugs uuid_string base left
                (base ++ (codes "-" ++ decimal 10 number))
                (suc number))
              (λ s d'. Extends base s × (d' ≡ d))
          → Yields d
              (elim exists [
                | true ↦
                    try_slugs uuid_string base left
                      (base ++ (codes "-" ++ decimal 10 number))
                      (suc number)
                | false ↦ pure candidate
              ])
              (λ s d'. Extends base s × (d' ≡ d))
      chosen true next = next
      chosen false next = Yields-pure d candidate (e, refl)

-- A workspace that was created for a user: with the name and the slug, which nobody had, and with the
-- user as an owner in both tables.
pub record IsFounded (user_id : ℕ) (name base : Text) (d : Db) (x : WorkspaceWithRole) (d' : Db)
    : Type 0 where
  pub role : x.role ≡ owner
  pub named : x.row.name ≡ name
  pub slug : Extends base x.row.slug
  pub free : any (λ w. text_eq w.slug x.row.slug) d.workspaces ≡ false
  pub owned : x.row.owner_id ≡ user_id
  pub member : HoldsRole x.row.id user_id owner d'.members
  pub workspaces : d'.workspaces ≡ x.row ∷ d.workspaces
  pub users : d'.users ≡ d.users

create_workspace_tx-Yields :
    (user_id : ℕ) (name base slug : Text) (d : Db)
    → Extends base slug
    → Yields d (create_workspace_tx user_id name slug) (IsFounded user_id name base d)
unfolding create_workspace_tx
create_workspace_tx-Yields user_id name base slug d ext =
    Yields-run d translate_db_error _ _ (λ st ws d1 e1.
      Yields-run d1 translate_db_error _ _ (λ st2 v d2 e2.
        let (made, tables, free) = create_workspace-eq-ok name slug user_id st d d1 ws e1 in
        let (users2, workspaces2) = add_workspace_member-tables _ _ _ st2 d1 d2 v e2 in
        let same_slug : ws.slug ≡ slug = ap (λ (w : WorkspaceRow). w.slug) made in
        Yields-pure d2 _ (record {
          role = refl;
          named = ap (λ (w : WorkspaceRow). w.name) made;
          slug = (ext.0, same_slug ∙ ext.1);
          free = subst (λ s. any (λ w. text_eq w.slug s) d.workspaces ≡ false) (sym same_slug) free;
          owned = ap (λ (w : WorkspaceRow). w.owner_id) made;
          member = add_workspace_member-HoldsRole ws.id user_id owner st2 d1 d2 v e2;
          workspaces =
              workspaces2
              ∙ ap (λ (d : Db). d.workspaces) tables
              ∙ ap (λ w. w ∷ d.workspaces) (sym made);
          users = users2 ∙ ap (λ (d : Db). d.users) tables;
        })))

module _ (u : Unicode) (uuid_string : ℕ → Text) (user_id : ℕ) (name : Text) (actor : Actor) where
  abbrev pub stored_name : Text
  stored_name = (validate_name u "name" name []).0

  create_of_user-Yields :
      (d : Db)
      → Yields d
          (create_of_user u uuid_string user_id name actor)
          (IsFounded user_id stored_name (base_slug u stored_name) d)
  unfolding create_of_user unique_workspace_slug
  create_of_user-Yields d = Yields-quiet d _ _ (Respects-check _) (λ _ _ _ _.
      Yields-then d _ _
        (try_slugs-Extends uuid_string (base_slug u stored_name) 98 _ 2 d ([], unextended _))
        (λ slug d' (ext, same). Yields-in_tx d' _ _ (λ wt x here ran.
          Yields-quiet _ _ _ (Respects-record_event _) (λ _ _ _ _. Yields-pure _ x (
            (create_workspace_tx-Yields user_id stored_name _ slug d ext).at wt x (sym same ∙ here)
              ran)))))

  -- A `Create` that returns a workspace has stored it with the trimmed name and with a slug that nobody
  -- had and that is the slug of the name, `workspace` if that is empty, or extends it; and the user is
  -- its owner in its row and by a membership.
  pub create_of_user-IsFounded :
      (w : World) (x : WorkspaceWithRole)
      → (create_of_user u uuid_string user_id name actor w).0 ≡ ok x
      → IsFounded user_id stored_name
          (base_slug u stored_name)
          w.db
          x
          (create_of_user u uuid_string user_id name actor w).1.db
  create_of_user-IsFounded w x e = (create_of_user-Yields w.db).at w x refl e
