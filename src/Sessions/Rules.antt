-- ===== src/Sessions/Rules.antt =====
-- How the steps of the service for sessions are proved about (backend/internal/service/auth.go).
use vaultly.Prelude.{
  ℕ, ◌+◌, ◌≡◌, refl, subst, ◌∙◌, none, List, [], ◌∷◌, Text, any, ◌==◌, text_eq, Bool-cases, inl,
  inr,
}
use vaultly.Domain.{Error, Action}
use vaultly.Db.{Db, RefreshRow}
use vaultly.World.{
  World, Svc, Sql, Outcome, ok, err, DbError, Stmt, Stamp, Event, Actor, pure, run, on_error,
  translate_db_error,
}
use vaultly.World.Respects.{
  Respects, Respects-bind, Respects-pure, Respects-random_bytes, Respects-record_event,
  Respects-run, Respects-lift, respects_rules, sameness,
}
use vaultly.World.Returns.{bind-eq-ok}
use vaultly.World.Yields.{Yields, Yields-quiet, Yields-run, Yields-pure}
use vaultly.Queries.Reads.{IsRead, Changes-of_IsRead}
use vaultly.Queries.Accounts.{
  User, CreateRefreshTokenParams, new_refresh_token, create_refresh_token, WorkspaceWithRole,
  list_workspaces_for_user,
}
use vaultly.Passwords.{Argon, hash_password}
use vaultly.World.Steps.{attempt}
use vaultly.Sessions.Issuer.{
  TokenIssuer, Digests, GeneratedToken, now, new_uuid, issue, generate_refresh_token,
}
use vaultly.Sessions.Defs.{
  AuthDeps, Session, refresh_token_params, new_session, record_all, record_listed,
  record_across_workspaces,
}

Respects-attempt : {A : Type 0} (m : Sql A) → Respects sameness m → Respects sameness (attempt m)
unfolding attempt
Respects-attempt m r = record { at = λ w. r.at w }

pub Respects-attempt-run :
    {A : Type 0} (q : Stmt A) → IsRead q → Respects sameness (attempt (run q))
Respects-attempt-run q r = Respects-attempt (run q) (Respects-run q (Changes-of_IsRead q r))

pub Respects-read :
    {A : Type 0} (f : DbError → Error) (q : Stmt A)
    → IsRead q
    → Respects sameness (on_error f (run q))
Respects-read f q r = search (respects_rules, Respects-run, Changes-of_IsRead)

pub Respects-now : Respects sameness now
unfolding now
Respects-now = record { at = λ w. refl }

Respects-new_uuid : Respects sameness new_uuid
unfolding new_uuid
Respects-new_uuid = record { at = λ w. refl }

pub Respects-issue :
    (t : TokenIssuer) (id : ℕ) (email : Text) → Respects sameness (issue t id email)
unfolding issue
Respects-issue t id email =
    Respects-bind _ _ Respects-now
      (λ time. Respects-bind _ _ Respects-new_uuid (λ i. Respects-lift _))

pub Respects-generate : (g : Digests) → Respects sameness (generate_refresh_token g)
unfolding generate_refresh_token
Respects-generate g = Respects-bind _ _ (Respects-random_bytes 32) (λ secret. Respects-pure _)

pub Respects-hash_password : (a : Argon) (p : Text) → Respects sameness (hash_password a p)
unfolding hash_password
Respects-hash_password a p = Respects-bind _ _ (Respects-random_bytes 16) (λ salt. Respects-pure _)

Respects-record_all :
    (f : ℕ → Event) (ws : List WorkspaceWithRole) → Respects sameness (record_all f ws)
Respects-record_all f [] = Respects-pure tt
Respects-record_all f (w ∷ ws) =
    Respects-bind _ _ (Respects-record_event _) (λ _. Respects-record_all f ws)

Respects-record_listed :
    (f : ℕ → Event) (o : Outcome DbError (List WorkspaceWithRole))
    → Respects sameness (record_listed f o)
Respects-record_listed f (ok ws) = Respects-record_all f ws
Respects-record_listed f (err e) = Respects-pure tt

list_workspaces_for_user-IsRead : (id : ℕ) → IsRead (list_workspaces_for_user id)
unfolding list_workspaces_for_user
list_workspaces_for_user-IsRead id = record { at = λ s d a d' e. cc e }

pub Respects-record_across_workspaces :
    (id : ℕ) (a : Actor) (x : Action) → Respects sameness (record_across_workspaces id a x)
unfolding record_across_workspaces
Respects-record_across_workspaces id a x =
    Respects-bind _ _ (Respects-attempt-run _ (list_workspaces_for_user-IsRead id))
      (λ o. Respects-record_listed _ o)

-- A step at the end that leaves the tables alone.
pub Yields-last :
    {A : Type 0} {Q : A → Db → Type 0} (d : Db) (m : Svc A)
    → Respects sameness m
    → ((a : A) → Q a d)
    → Yields d m Q
Yields-last {Q = Q} d m r q = record { at = λ w a s h. subst (Q a) (s ∙ r.at w) (q a) }

-- A new session: one row for its refresh token, which is the user's and live.
pub record IsOpened (s : AuthDeps) (d : Db) (user : User) (x : Session) (d' : Db) : Type 0 where
  pub row : RefreshRow
  pub tables : d' ≡ record d { refresh_tokens = row ∷ d.refresh_tokens }
  pub owner : row.user_id ≡ user.id
  pub digest : row.token_hash ≡ s.digests.hash_token x.refresh_token
  pub live : row.revoked_at ≡ none
  pub same_user : x.user ≡ user

pub create_refresh_token-eq-ok :
    (p : CreateRefreshTokenParams) (st : Stamp) (d d' : Db) (r : RefreshRow)
    → create_refresh_token p st d ≡ ok (r, d')
    → d' ≡ record d { refresh_tokens = new_refresh_token p st ∷ d.refresh_tokens }
unfolding create_refresh_token
create_refresh_token-eq-ok p st d d' r h =
    elim (Bool-cases (any (λ u. u.id == p.user_id) d.users)) [
      | inr nobody ↦ cc (rw (nobody, create_refresh_token) at h)
      | inl there ↦ elim (Bool-cases (any (λ r. r.id == st.uuid) d.refresh_tokens)) [
        | inl used ↦ cc (rw (there, used, create_refresh_token) at h)
        | inr fresh ↦
            elim (Bool-cases (any (λ r. text_eq r.token_hash p.token_hash) d.refresh_tokens)) [
              | inl seen ↦ cc (rw (there, fresh, seen, create_refresh_token) at h)
              | inr new ↦ cc (rw (there, fresh, new, create_refresh_token) at h)
            ]
      ]
    ]

pub generate_refresh_token-eq-ok :
    (g : Digests) (w : World) (t : GeneratedToken)
    → (generate_refresh_token g w).0 ≡ ok t
    → t.hash ≡ g.hash_token t.plaintext
unfolding generate_refresh_token pure
generate_refresh_token-eq-ok g w t h = let (secret, drawn, rest, _) = bind-eq-ok _ _ w h in cc

pub new_session-Yields :
    (s : AuthDeps) (d : Db) (user : User) (actor : Actor)
    → Yields d (new_session s user actor) (IsOpened s d user)
unfolding new_session refresh_token_params
new_session-Yields s d user actor =
    Yields-quiet d _ _ (Respects-issue s.issuer user.id user.email) (λ _ access _ _.
      Yields-quiet d _ _ (Respects-generate s.digests) (λ wg next _ made.
        Yields-quiet d _ _ Respects-now (λ _ time _ _.
          Yields-run d translate_db_error _ _ (λ st r d' e. Yields-pure d' _ (record {
            row =
                new_refresh_token
                  (refresh_token_params s user.id next.hash (time + s.refresh_ttl) actor) st;
            tables = create_refresh_token-eq-ok _ st d d' r e;
            owner = refl;
            digest = generate_refresh_token-eq-ok s.digests wg next made;
            live = refl;
            same_user = refl;
          })))))
