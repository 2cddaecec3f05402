-- ===== src/Sessions/Registers.antt =====
-- What a registration leaves (backend/internal/service/auth.go).
use vaultly.Prelude.{
  ℕ, ◌≡◌, refl, sym, subst, ap, ◌∙◌, false, [], ◌∷◌, Text, text_eq, any, ◌==◌, Bool-cases, inl, inr,
  arith,
}
use vaultly.Domain.{Error, Role, owner}
use vaultly.Db.{Db, UserRow, WorkspaceRow}
use vaultly.World.{
  World, Svc, Outcome, ok, err, DbError, Stamp, Actor, rename, advance, translate_db_error, ◌>>=◌,
  in_tx,
}
use vaultly.World.Respects.{Respects-check, Respects-record_event}
use vaultly.World.Returns.{bind-eq-ok, in_tx-eq-ok}
use vaultly.World.Yields.{Yields, Yields-quiet, Yields-run, Yields-pure}
use vaultly.Validate.{validate_email}
use vaultly.Queries.Members.{add_workspace_member}
use vaultly.Queries.Roles.{is_member}
use vaultly.Queries.Accounts.{
  User, user_of, has_email, create_user, new_user, create_workspace, new_workspace,
}
use vaultly.Workspaces.Adding.{HoldsRole, add_workspace_member-HoldsRole}
use vaultly.Passwords.{verify_password}
use vaultly.Passwords.RoundTrip.{IsArgon, verify_password-hash_password}
use vaultly.World.Steps.{reword}
use vaultly.Sessions.Defs.{AuthDeps, Session, register, register_tx, email_taken}
use vaultly.Sessions.Rules.{Respects-hash_password, IsOpened, new_session-Yields}

create_user-eq-ok :
    (s : AuthDeps) (email hash name : Text) (st : Stamp) (d d' : Db) (u : User)
    → create_user s.unicode email hash name st d ≡ ok (u, d')
    → (u ≡ user_of (new_user email hash name st))
      × (d' ≡ record d { users = new_user email hash name st ∷ d.users })
      × (any (has_email s.unicode email) d.users ≡ false)
unfolding create_user
create_user-eq-ok s email hash name st d d' u h =
    elim (Bool-cases (any (λ r. r.id == st.uuid) d.users)) [
      | inl used ↦ cc (rw (used, create_user) at h)
      | inr fresh ↦ elim (Bool-cases (any (has_email s.unicode email) d.users)) [
        | inl taken ↦ cc (rw (fresh, taken, create_user) at h)
        | inr free ↦
            let h' : Path (Outcome DbError (User × Db))
                (ok (
                  user_of (new_user email hash name st),
                  record d { users = new_user email hash name st ∷ d.users },
                ))
                (ok (u, d')) =
              rw (fresh, free, create_user) at h in
            (cc, cc, free)
      ]
    ]

pub create_workspace-eq-ok :
    (name slug : Text) (owner_id : ℕ) (st : Stamp) (d d' : Db) (w : WorkspaceRow)
    → create_workspace name slug owner_id st d ≡ ok (w, d')
    → (w ≡ new_workspace name slug owner_id st)
      × (d' ≡ record d { workspaces = new_workspace name slug owner_id st ∷ d.workspaces })
      × (any (λ w. text_eq w.slug slug) d.workspaces ≡ false)
unfolding create_workspace
create_workspace-eq-ok name slug owner_id st d d' w h =
    elim (Bool-cases (any (λ u. u.id == owner_id) d.users)) [
      | inr nobody ↦ cc (rw (nobody, create_workspace) at h)
      | inl there ↦ elim (Bool-cases (any (λ w. w.id == st.uuid) d.workspaces)) [
        | inl used ↦ cc (rw (there, used, create_workspace) at h)
        | inr fresh ↦ elim (Bool-cases (any (λ w. text_eq w.slug slug) d.workspaces)) [
          | inl taken ↦ cc (rw (there, fresh, taken, create_workspace) at h)
          | inr free ↦
              let h' : Path (Outcome DbError (WorkspaceRow × Db))
                  (ok (
                    new_workspace name slug owner_id st,
                    record d { workspaces = new_workspace name slug owner_id st ∷ d.workspaces },
                  ))
                  (ok (w, d')) =
                rw (there, fresh, free, create_workspace) at h in
              (cc, cc, free)
        ]
      ]
    ]

pub add_workspace_member-tables :
    (W U : ℕ) (r : Role) (st : Stamp) (d d' : Db) (u : Unit {0})
    → add_workspace_member W U r st d ≡ ok (u, d')
    → (d'.users ≡ d.users) × (d'.workspaces ≡ d.workspaces)
unfolding add_workspace_member
add_workspace_member-tables W U r st d d' u h = elim (Bool-cases (any (is_member W U) d.members)) [
  | inl there ↦ ground arith
  | inr absent ↦ ground arith
]

-- What is left of an account: its user, and a workspace of which the user is an owner.
pub record IsAccount (s : AuthDeps) (d : Db) (email hash : Text) (u : User) (W : ℕ) (d' : Db)
    : Type 0 where
  pub row : UserRow
  pub workspace : WorkspaceRow
  pub free : any (has_email s.unicode email) d.users ≡ false
  pub users : d'.users ≡ row ∷ d.users
  pub workspaces : d'.workspaces ≡ workspace ∷ d.workspaces
  pub same_user : u ≡ user_of row
  pub same_workspace : workspace.id ≡ W
  pub email_stored : row.email ≡ email
  pub hash_stored : row.password_hash ≡ hash
  pub owned : workspace.owner_id ≡ row.id
  pub member : HoldsRole workspace.id row.id owner d'.members

module _ (s : AuthDeps) (d : Db) (email hash name : Text) where
  register_tx-Yields :
      Yields d
        (register_tx s email hash name)
        (λ m d'. IsAccount s d email hash m.user m.workspace_id d')
  unfolding register_tx user_of
  register_tx-Yields = Yields-run d translate_db_error _ _ (λ st u d1 e1.
      Yields-run d1 translate_db_error _ _ (λ st2 ws d2 e2.
        Yields-run d2 translate_db_error _ _ (λ st3 v d3 e3. Yields-pure d3 _ (
          let (same, tables, free) = create_user-eq-ok s email hash name st d d1 u e1 in
          let (made, tables2, _) = create_workspace-eq-ok _ _ _ st2 d1 d2 ws e2 in
          let (users3, workspaces3) = add_workspace_member-tables _ _ _ st3 d2 d3 v e3 in
          let same_id : u.id ≡ st.uuid = ap (λ (u : User). u.id) same in
          record {
            row = new_user email hash name st;
            workspace = ws;
            free = free;
            users = users3 ∙ ap (λ (d : Db). d.users) tables2 ∙ ap (λ (d : Db). d.users) tables;
            workspaces =
                workspaces3
                ∙ ap (λ (d : Db). d.workspaces) tables2
                ∙ ap (λ l. l ∷ d1.workspaces) (sym made)
                ∙ ap (λ (d : Db). ws ∷ d.workspaces) tables;
            same_user = same;
            same_workspace = refl;
            email_stored = refl;
            hash_stored = refl;
            owned = ap (λ (w : WorkspaceRow). w.owner_id) made ∙ same_id;
            member =
                subst (λ i. HoldsRole ws.id i owner d3.members) same_id
                  (add_workspace_member-HoldsRole ws.id u.id owner st3 d2 d3 v e3);
          }))))

-- A transaction whose error is reworded: what it left if it returned.
rename_ok :
    {A : Type 0} (f : Error → Error) (r : Outcome Error A) (a : A) → rename f r ≡ ok a → r ≡ ok a
rename_ok f (ok b) a h = cc
rename_ok f (err e) a h = cc

Yields-reword_tx :
    {A B : Type 0} {Q : A → Db → Type 0} (d : Db) (f : Error → Error) (body : Svc B) (k : B → Svc A)
    → ((w : World) (b : B) → d ≡ w.db → (body w).0 ≡ ok b → Yields (body w).1.db (k b) Q)
    → Yields d (reword f (in_tx body) >>= k) Q
unfolding reword
Yields-reword_tx {Q = Q} d f body k h = record {
  at = λ w a s e.
      let (b, reworded, rest, same) = bind-eq-ok (reword f (in_tx body)) k w e in
      let (ran, left) = in_tx-eq-ok body w (rename_ok f (in_tx body w).0 b reworded) in
      subst (λ w'. Q a w'.db) (sym same)
        ((h (advance w) b s ran).at (in_tx body w).1 a (sym left) rest);
}

-- A registered user: an account with the address that was given, of which nobody had it before, and
-- the owner of a new workspace; the stored hash accepts the password; and the session is the user's.
abbrev pub IsRegistered : AuthDeps → Text → Text → Db → Session → Db → Type 0
IsRegistered s email password d x d' =
    (r : UserRow) × (w : WorkspaceRow) × (any (has_email s.unicode email) d.users ≡ false)
    × (d'.users ≡ r ∷ d.users)
    × (d'.workspaces ≡ w ∷ d.workspaces)
    × (r.email ≡ email)
    × (verify_password s.argon password r.password_hash ≡ ok tt)
    × (w.owner_id ≡ r.id)
    × HoldsRole w.id r.id owner d'.members
    × (x.user ≡ user_of r)

opened :
    (s : AuthDeps) (email password hash : Text) (d d1 d2 : Db) (u : User) (W : ℕ) (x : Session)
    → IsAccount s d email hash u W d1
    → verify_password s.argon password hash ≡ ok tt
    → IsOpened s d1 u x d2
    → IsRegistered s email password d x d2
opened s email password hash d d1 d2 u W x a v o = (
  a.row,
  a.workspace,
  a.free,
  ap (λ (d : Db). d.users) o.tables ∙ a.users,
  ap (λ (d : Db). d.workspaces) o.tables ∙ a.workspaces,
  a.email_stored,
  subst (λ h. verify_password s.argon password h ≡ ok tt) (sym a.hash_stored) v,
  a.owned,
  subst (λ (d : Db). HoldsRole a.workspace.id a.row.id owner d.members) (sym o.tables) a.member,
  o.same_user ∙ a.same_user,
)

module _ (s : AuthDeps) (h : IsArgon s.argon) (email password name : Text) (actor : Actor) where
  register-Yields :
      (d : Db)
      → Yields d
          (register s email password name actor)
          (IsRegistered s (validate_email s.unicode email []).0 password d)
  unfolding register
  register-Yields d = Yields-quiet d _ _ (Respects-check _) (λ _ _ _ _.
      Yields-quiet d _ _ (Respects-hash_password s.argon password) (λ wh hash _ hashed.
        Yields-reword_tx d email_taken _ _ (λ wt made st ran.
          let account = (register_tx-Yields s d _ hash _).at wt made st ran in
          let (accepted, _) = verify_password-hash_password s.argon h password hash wh hashed in
          Yields-quiet _ _ _ (Respects-record_event _) (λ _ _ _ _. record {
            at = λ w x same e.
                opened s _ password hash d _ _ made.user made.workspace_id x account accepted
                  ((new_session-Yields s _ made.user _).at w x same e);
          }))))

  -- A `Register` that returns a session has made, together, an account with the address in its
  -- validated form, which nobody had before, and a workspace of which the new user is the owner; the
  -- stored hash accepts the password that was given, for the laws of the packages behind it; and the
  -- session is that user's.
  pub register-IsRegistered :
      (w : World) (x : Session)
      → (register s email password name actor w).0 ≡ ok x
      → IsRegistered s
          (validate_email s.unicode email []).0
          password
          w.db
          x
          (register s email password name actor w).1.db
  register-IsRegistered w x e = (register-Yields w.db).at w x refl e
