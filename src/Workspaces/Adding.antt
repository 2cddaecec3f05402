-- ===== src/Workspaces/Adding.antt =====
-- What `AddMember` gives (backend/internal/service/workspace.go).
use vaultly.Prelude.{
  ℕ, ◌≡◌, ◌∙◌, sym, subst, refl, true, false, Option, none, some, List, [], ◌∷◌, Text, first, any,
  update_where, Bool-cases, ◌⊎◌, inl, inr, arith,
}
use vaultly.Domain.{Role, owner, admin, member, viewer, unknown, is_owner, at_least}
use vaultly.Db.{Db, MemberRow, UserRow}
use vaultly.World.{ok, World, stamp, Stamp, Actor, pure, check, run, translate_db_error, on_error}
use vaultly.World.Respects.{
  Respects, respects_rules, Respects-run, Respects-check, Respects-record_event, sameness,
}
use vaultly.World.Returns.{bind-eq-ok, query-eq-ok, on_error-eq-ok}
use vaultly.World.Yields.{Yields, Yields-quiet, Yields-run, Yields-pure, check_refused}
use vaultly.Queries.Reads.{read_rules, get_user_by_email-eq-ok}
use vaultly.Queries.Accounts.{has_email}
use vaultly.Queries.Roles.{is_member, role_in, found, get_workspace_role}
use vaultly.Queries.Members.{with_role, new_member, add_workspace_member, get_user_by_email}
use vaultly.Validate.{Unicode, validate_email}
use vaultly.Authz.{Scope, require_workspace_role}
use vaultly.Authz.Laws.{Respects-require_workspace_role}
use vaultly.Workspaces.Defs.{WorkspaceMember, add_member, grants_too_much, no_account}

-- The member's row holds the role.
abbrev pub HoldsRole : ℕ → ℕ → Role → List MemberRow → Type 0
HoldsRole W U r ms = (m : MemberRow) × (first (is_member W U) ms ≡ some m) × (m.role ≡ r)

HoldsRole-update :
    (W U : ℕ) (r : Role) (ms : List MemberRow)
    → any (is_member W U) ms ≡ true
    → HoldsRole W U r (update_where (is_member W U) (with_role r) ms)
HoldsRole-update W U r [] h = cc
HoldsRole-update W U r (m ∷ ms) h = elim (Bool-cases (is_member W U m)) [
  | inl hit ↦ rw hit (with_role r m, ground arith, refl)
  | inr miss ↦
      let (x, e, same) = HoldsRole-update W U r ms (ground arith) in rw miss (x, ground arith, same)
]

pub add_workspace_member-HoldsRole :
    (W U : ℕ) (r : Role) (st : Stamp) (d d' : Db) (u : Unit {0})
    → add_workspace_member W U r st d ≡ ok (u, d')
    → HoldsRole W U r d'.members
unfolding add_workspace_member
add_workspace_member-HoldsRole W U r st d d' u h =
    elim (Bool-cases (any (is_member W U) d.members)) [
      | inl there ↦
          let new : record d { members = update_where (is_member W U) (with_role r) d.members }
              ≡ d' =
            ground arith in
          subst (λ d. HoldsRole W U r d.members) new (HoldsRole-update W U r d.members there)
      | inr absent ↦
          let new : record d { members = new_member W U r st ∷ d.members } ≡ d' = ground arith in
          subst (λ d. HoldsRole W U r d.members) new (new_member W U r st, ground arith, refl)
    ]

found_self : (o : Option Role) (d d' : Db) (r : Role) → found d o ≡ ok (r, d') → o ≡ some r
found_self none d d' r h = cc
found_self (some s) d d' r h = cc

require_workspace_role-eq-ok :
    (user W : ℕ) (minimum : Role) (w : World) {s : Scope}
    → (require_workspace_role user W minimum w).0 ≡ ok s
    → role_in W user w.db ≡ some s.role
unfolding require_workspace_role get_workspace_role pure
require_workspace_role-eq-ok user W minimum w {s} h =
    let (r, w', e, rest, _) = query-eq-ok translate_db_error (get_workspace_role W user) _ w h in
    let (_, _, rest', _) = bind-eq-ok (check _) _ w' rest in
    let same : r ≡ s.role = cc in found_self (role_in W user w.db) w.db w'.db r e ∙ cc

is_owner-at_least : (r : Role) → at_least r owner ≡ true → r ≡ owner
unfolding at_least
is_owner-at_least owner h = refl
is_owner-at_least admin h = ground arith
is_owner-at_least member h = ground arith
is_owner-at_least viewer h = ground arith
is_owner-at_least (unknown s) h = ground arith

granted_by_owner :
    (role r : Role) (o : Option Role)
    → grants_too_much role r ≡ false
    → o ≡ some r
    → (is_owner role ≡ false) ⊎ (o ≡ some owner)
granted_by_owner role r o h e = elim (Bool-cases (is_owner role)) [
  | inl t ↦ let top : r ≡ owner = is_owner-at_least r (ground arith) in inr (cc)
  | inr f ↦ inl f
]

-- What a return of `AddMember` tells of the tables before and after: the account of the address is the
-- member that is returned, and holds the role in the workspace.
abbrev pub Granted : Unicode → ℕ → ℕ → Text → Role → Db → WorkspaceMember → Db → Type 0
Granted u user W email role d m d' =
    (r : UserRow) × (first (has_email u email) d.users ≡ some r)
    × ((m.user_id ≡ r.id) × (m.workspace_id ≡ W) × (m.role ≡ role))
    × HoldsRole W r.id role d'.members
    × ((is_owner role ≡ false) ⊎ (role_in W user d ≡ some owner))

Respects-user :
    (u : Unicode) (email : Text)
    → Respects sameness (on_error no_account (run (get_user_by_email u email)))
Respects-user u email = search (respects_rules, Respects-run, read_rules)

add_member-Yields :
    (u : Unicode) (user W : ℕ) (email : Text) (role : Role) (actor : Actor) (d : Db)
    → Yields d
        (add_member u user W email role actor)
        (Granted u user W (validate_email u email []).0 role d)
unfolding add_member
add_member-Yields u user W email role actor d =
    Yields-quiet d _ _ (Respects-require_workspace_role user _ _) (λ ws scope ss s.
      Yields-quiet d _ _ (Respects-check _) (λ _ _ _ _.
        Yields-quiet d _ _ (Respects-check _) (λ wg _ _ g.
          Yields-quiet d _ _ (Respects-user u _) (λ wu invitee su asked.
            Yields-run d _ _ _ (λ st v d' e.
              Yields-quiet d' _ _ (Respects-record_event _) (λ _ _ _ _.
                let (left, found, _) = on_error-eq-ok no_account _ wu asked in
                Yields-pure d' _ (
                  invitee,
                  subst
                      (λ d.
                        first (has_email u (validate_email u email []).0) d.users ≡ some invitee)
                      (sym su) (get_user_by_email-eq-ok u _ (stamp wu) wu.db left invitee found),
                  (refl, refl, refl),
                  add_workspace_member-HoldsRole W invitee.id role st d d' v e,
                  subst (λ d. (is_owner role ≡ false) ⊎ (role_in W user d ≡ some owner)) (sym ss)
                      (granted_by_owner role scope.role _
                        (check_refused (grants_too_much role scope.role) _ wg g)
                        (require_workspace_role-eq-ok user W admin ws s)),
                )))))))

-- An `AddMember` that returns gives the role to the account that has the address in its validated
-- form, a user who is a member already included, whatever role that user had, and returns that account
-- as the member; and it makes an owner only for an owner.
pub add_member-Granted :
    (u : Unicode) (user W : ℕ) (email : Text) (role : Role) (actor : Actor) (w : World)
    (m : WorkspaceMember)
    → (add_member u user W email role actor w).0 ≡ ok m
    → Granted u user W
        (validate_email u email []).0
        role
        w.db
        m
        (add_member u user W email role actor w).1.db
add_member-Granted u user W email role actor w m h =
    (add_member-Yields u user W email role actor w.db).at w m refl h
