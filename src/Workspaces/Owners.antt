-- ===== src/Workspaces/Owners.antt =====
-- The owners of a workspace under the operations on its members (`ensureNotLastOwner` of
-- backend/internal/service/workspace.go).
use vaultly.Prelude.{
  ℕ, ◌≡◌, ◌≤◌, sym, subst, refl, Bool, true, false, not, ◌&&◌, Option, none, some, first,
  update_where, ◌==◌, if◌then◌else◌, leb, Bool-cases, inl, inr, arith,
}
use vaultly.Domain.{Role, Error, is_owner}
use vaultly.Db.{Db, MemberRow}
use vaultly.World.{
  Outcome, ok, err, World, Svc, Stamp, Actor, pure, run, translated, translate_db_error,
}
use vaultly.World.Respects.{
  Respects, respects_rules, Respects-run, Respects-check, Respects-if, Respects-pure, sameness,
}
use vaultly.World.Returns.{query-eq-ok, on_error-eq-ok}
use vaultly.World.Yields.{Yields, Yields-quiet, Yields-run, Yields-record_event, check_refused}
use vaultly.World.Atomic.{Atomic, atomic_rules}
use vaultly.Queries.Reads.{read_rules}
use vaultly.Queries.Roles.{is_member, found, get_workspace_role}
use vaultly.Queries.Members.{
  owners, with_role, count_workspace_owners, update_workspace_member_role, remove_workspace_member,
}
use vaultly.Authz.Laws.{Respects-require_workspace_role}
use vaultly.Workspaces.Defs.{ensure_not_last_owner, update_member_role, remove_member}
use vaultly.Workspaces.Count.{
  HasUniqueMembers, without, owners-update_owner, owners-update_ne, owners-update,
  owners-update_other, owners-remove_ne, owners-remove, owners-remove_other,
}

-- Every workspace that has an owner before has one after.
abbrev pub KeepsOwners : Db → Db → Type 0
KeepsOwners d d' = (ws : ℕ) → 1 ≤ owners ws d.members → 1 ≤ owners ws d'.members

Respects-ensure_not_last_owner : (id : ℕ) → Respects sameness (ensure_not_last_owner id)
unfolding ensure_not_last_owner
Respects-ensure_not_last_owner id = search (respects_rules, Respects-run, read_rules) depth 9

Respects-role : (W U : ℕ) → Respects sameness (translated (run (get_workspace_role W U)))
Respects-role W U = search (respects_rules, Respects-run, read_rules)

ensure_not_last_owner-eq-ok :
    (id : ℕ) (w : World) {u : Unit {0}}
    → (ensure_not_last_owner id w).0 ≡ ok u
    → 2 ≤ owners id w.db.members
unfolding ensure_not_last_owner count_workspace_owners
ensure_not_last_owner-eq-ok id w h =
    let (n, w', e, rest, _) = query-eq-ok translate_db_error (count_workspace_owners id) _ w h in
    let more = check_refused (leb n 1) _ w' rest in
    let same : owners id w.db.members ≡ n = cc in rw same (ground arith)

-- The guard of both operations.
guard-eq-ok :
    (b : Bool) (id : ℕ) (w : World) {u : Unit {0}}
    → ((if b then ensure_not_last_owner id else pure tt) w).0 ≡ ok u
    → b ≡ true
    → 2 ≤ owners id w.db.members
guard-eq-ok true id w h t = ensure_not_last_owner-eq-ok id w h
guard-eq-ok false id w h t = cc

found_role :
    (o : Option MemberRow) (d d' : Db) (r : Role)
    → found d (elim o [ none ↦ none | some m ↦ some m.role ]) ≡ ok (r, d')
    → (m : MemberRow) × (o ≡ some m) × (m.role ≡ r)
found_role none d d' r h = cc
found_role (some m) d d' r h = (m, refl, cc)

role-eq-ok :
    (W U : ℕ) (w : World) {r : Role}
    → (translated (run (get_workspace_role W U)) w).0 ≡ ok r
    → (m : MemberRow) × (first (is_member W U) w.db.members ≡ some m) × (m.role ≡ r)
unfolding get_workspace_role
role-eq-ok W U w {r} h =
    let (d, e, _) = on_error-eq-ok translate_db_error (get_workspace_role W U) w h in
    found_role (first (is_member W U) w.db.members) w.db d r e

-- The writes, guarded.
module _ (W U : ℕ) (d : Db) (m : MemberRow) (unique : HasUniqueMembers d.members)
    (current : first (is_member W U) d.members ≡ some m) where
  KeepsOwners-update :
      (r : Role)
      → ((is_owner m.role && not (is_owner r)) ≡ true → 2 ≤ owners W d.members)
      → KeepsOwners d (record d { members = update_where (is_member W U) (with_role r) d.members })
  KeepsOwners-update r guard ws h = elim (Bool-cases (ws == W)) [
    | inr other ↦ let same = owners-update_ne W U r ws d.members (ground arith) in ground arith
    | inl here ↦
        let eq : ws ≡ W = ground arith in
        elim (Bool-cases (is_owner r)) [
          | inl promoted ↦ let more = owners-update_owner W U r ws d.members promoted in omega arith
          | inr demoted ↦ elim (Bool-cases (is_owner m.role)) [
            | inl was ↦
                let enough : 2 ≤ owners W d.members = guard (ground arith) in
                let less = owners-update W U r W d.members unique in rw eq (omega arith)
            | inr not_one ↦
                let more = owners-update_other W U r ws d.members m unique current not_one in
                omega arith
          ]
        ]
  ]

  KeepsOwners-remove :
      (is_owner m.role ≡ true → 2 ≤ owners W d.members)
      → KeepsOwners d (record d { members = without W U d.members })
  KeepsOwners-remove guard ws h = elim (Bool-cases (ws == W)) [
    | inr other ↦ let same = owners-remove_ne W U ws d.members (ground arith) in ground arith
    | inl here ↦
        let eq : ws ≡ W = ground arith in
        elim (Bool-cases (is_owner m.role)) [
          | inl was ↦
              let enough : 2 ≤ owners W d.members = guard was in
              let less = owners-remove W U W d.members unique in rw eq (omega arith)
          | inr not_one ↦
              let more = owners-remove_other W U ws d.members m unique current not_one in
              omega arith
        ]
  ]

update-eq-ok :
    (W U : ℕ) (r : Role) (st : Stamp) (d d' : Db) (u : Unit {0})
    → update_workspace_member_role W U r st d ≡ ok (u, d')
    → record d { members = update_where (is_member W U) (with_role r) d.members } ≡ d'
unfolding update_workspace_member_role
update-eq-ok W U r st d d' u h = ground arith

remove-eq-ok :
    (W U : ℕ) (st : Stamp) (d d' : Db) (u : Unit {0})
    → remove_workspace_member W U st d ≡ ok (u, d')
    → record d { members = without W U d.members } ≡ d'
unfolding remove_workspace_member
remove-eq-ok W U st d d' u h = cc h

-- The writes, after the steps that guard them.
module _ (W U : ℕ) (d d' : Db) (wr wg : World) (c : Role) {u v : Unit {0}} (st : Stamp)
    (unique : HasUniqueMembers d.members) (sr : d ≡ wr.db)
    (role : (translated (run (get_workspace_role W U)) wr).0 ≡ ok c) (sg : d ≡ wg.db) where
  KeepsOwners-guarded_update :
      (r : Role)
      → ((if is_owner c && not (is_owner r) then ensure_not_last_owner W else pure tt) wg).0 ≡ ok u
      → update_workspace_member_role W U r st d ≡ ok (v, d')
      → KeepsOwners d d'
  KeepsOwners-guarded_update r guard e =
      let (m, current, same) = role-eq-ok W U wr role in
      subst (KeepsOwners d) (update-eq-ok W U r st d d' v e) (
        KeepsOwners-update W U d m unique
          (subst (λ d. first (is_member W U) d.members ≡ some m) (sym sr) current) r
          (λ t.
            subst (λ d. 2 ≤ owners W d.members) (sym sg)
              (guard-eq-ok _ W wg guard (rw (← same) t))))

  KeepsOwners-guarded_remove :
      ((if is_owner c then ensure_not_last_owner W else pure tt) wg).0 ≡ ok u
      → remove_workspace_member W U st d ≡ ok (v, d')
      → KeepsOwners d d'
  KeepsOwners-guarded_remove guard e =
      let (m, current, same) = role-eq-ok W U wr role in
      subst (KeepsOwners d) (remove-eq-ok W U st d d' v e) (
        KeepsOwners-remove W U d m unique
          (subst (λ d. first (is_member W U) d.members ≡ some m) (sym sr) current)
          (λ t.
            subst (λ d. 2 ≤ owners W d.members) (sym sg)
              (guard-eq-ok _ W wg guard (rw (← same) t))))

-- With the call's error, nothing has changed.
keeps_either_way :
    {A : Type 0} (m : Svc A) (w : World)
    → Atomic m
    → Yields w.db m (λ _ d'. KeepsOwners w.db d')
    → (r : Outcome Error A) → (m w).0 ≡ r
    → KeepsOwners w.db (m w).1.db
keeps_either_way m w atomic yields (ok a) e = yields.at w a refl e
keeps_either_way m w atomic yields (err f) e =
    subst (KeepsOwners w.db) (sym (atomic.at w f e)) (λ ws h. h)

ruleset guarded = (
  atomic_rules, respects_rules, Respects-run, read_rules, Respects-require_workspace_role,
  Respects-ensure_not_last_owner,
)

module _ (user W U : ℕ) (actor : Actor) (w : World) (unique : HasUniqueMembers w.db.members) where
  update_member_role-KeepsOwners :
      (r : Role) → KeepsOwners w.db (update_member_role user W U r actor w).1.db
  unfolding update_member_role
  update_member_role-KeepsOwners r =
      let d = w.db in
      keeps_either_way (update_member_role user W U r actor) w (search guarded depth 20)
        (Yields-quiet d _ _ (Respects-require_workspace_role user _ _) (λ _ _ _ _.
          Yields-quiet d _ _ (Respects-check _) (λ _ _ _ _.
            Yields-quiet d _ _ (Respects-check _) (λ _ _ _ _.
              Yields-quiet d _ _ (Respects-role W U) (λ wr c sr role.
                Yields-quiet d _ _
                  (Respects-if _ _ _ (Respects-ensure_not_last_owner W) (Respects-pure tt))
                  (λ wg _ sg guard. Yields-run d _ _ _ (λ st u d' e. Yields-record_event _ _ (
                    KeepsOwners-guarded_update W U d d' wr wg c st unique sr role sg r guard
                      e))))))))
        _ refl

  remove_member-KeepsOwners : KeepsOwners w.db (remove_member user W U actor w).1.db
  unfolding remove_member
  remove_member-KeepsOwners =
      let d = w.db in
      keeps_either_way (remove_member user W U actor) w (search guarded depth 20)
        (Yields-quiet d _ _ (Respects-require_workspace_role user _ _) (λ _ _ _ _.
          Yields-quiet d _ _ (Respects-role W U) (λ wr c sr role.
            Yields-quiet d _ _
              (Respects-if _ _ _ (Respects-ensure_not_last_owner W) (Respects-pure tt))
              (λ wg _ sg guard. Yields-run d _ _ _ (λ st u d' e.
                Yields-record_event _ _
                  (KeepsOwners-guarded_remove W U d d' wr wg c st unique sr role sg guard e))))))
        _ refl

module _ (user W U : ℕ) (actor : Actor) (w : World) (unique : HasUniqueMembers w.db.members)
    (ws : ℕ) (managed : 1 ≤ owners ws w.db.members) where
  -- `UpdateMemberRole`, run by itself on a table of members with its primary key, leaves an owner to
  -- every workspace that has one, whatever role it is asked for and whatever it returns.
  pub owners-update_member_role :
      (r : Role) → 1 ≤ owners ws (update_member_role user W U r actor w).1.db.members
  owners-update_member_role r = update_member_role-KeepsOwners user W U actor w unique r ws managed

  -- `RemoveMember`, run by itself on a table of members with its primary key, leaves an owner to
  -- every workspace that has one, whatever it returns.
  pub owners-remove_member : 1 ≤ owners ws (remove_member user W U actor w).1.db.members
  owners-remove_member = remove_member-KeepsOwners user W U actor w unique ws managed
