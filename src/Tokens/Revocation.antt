-- ===== src/Tokens/Revocation.antt =====
-- What the revocation of an access token leaves (backend/internal/service/token.go).
use vaultly.Prelude.{
  ℕ, ◌≡◌, ◌≢◌, ◌⊎◌, refl, sym, ap, subst, ◌∙◌, Bool, true, false, none, some, List, [], ◌∷◌, Text,
  first, update_where, Bool-cases, Option-cases, inl, inr, arith,
}
use vaultly.Domain.{admin}
use vaultly.Db.{Db, TokenRow}
use vaultly.World.{
  World, Outcome, ok, err, DbError, no_rows, other, unique_violation, foreign_key_violation,
  check_violation, Stamp, Actor, raise,
}
use vaultly.World.Yields.{
  Yields, Yields-quiet, Yields-attempt-run, Yields-pure, Yields-record_event,
}
use vaultly.Authz.Laws.{Respects-require_token_role}
use vaultly.Tokens.Defs.{Net, AccessToken, AuthenticatedToken, access_token_from_row, authenticate}
use vaultly.Tokens.Admission.{authenticate-IsAdmitted}
use vaultly.Tokens.Manage.{is_unrevoked, revoked_token, revoke_access_token, revocation, revoke}

-- No row of the identifier is left that is not revoked, and nothing but the time of revocation of
-- such rows has changed.
abbrev pub IsRevoked : ℕ → Db → Db → Type 0
IsRevoked id d d' =
    (first (is_unrevoked id) d'.tokens ≡ none)
    × ((t : ℕ) × (d'
          ≡ record d { tokens = update_where (is_unrevoked id) (revoked_token t) d.tokens }))

module _ (id : ℕ) where
  update_where-none :
      (t : ℕ) (rs : List TokenRow)
      → first (is_unrevoked id) rs ≡ none
      → update_where (is_unrevoked id) (revoked_token t) rs ≡ rs
  update_where-none t [] h = refl
  update_where-none t (r ∷ rs) h = elim (Bool-cases (is_unrevoked id r)) [
    | inl live ↦ cc (rw live at h)
    | inr dead ↦ rw dead (ap (λ rs. r ∷ rs) (update_where-none t rs (rw dead at h)))
  ]

  revoked_dead : (t : ℕ) (r : TokenRow) → is_unrevoked id (revoked_token t r) ≡ false
  revoked_dead t r = ground arith

  first-update_where :
      (t : ℕ) (rs : List TokenRow)
      → first (is_unrevoked id) (update_where (is_unrevoked id) (revoked_token t) rs) ≡ none
  first-update_where t [] = refl
  first-update_where t (r ∷ rs) = elim (Bool-cases (is_unrevoked id r)) [
    | inl live ↦ rw (live, revoked_dead t r) (first-update_where t rs)
    | inr dead ↦ rw (dead, dead) (first-update_where t rs)
  ]

  revoke_access_token-eq-ok :
      (st : Stamp) (d d' : Db) (n : ℕ)
      → revoke_access_token id st d ≡ ok (n, d')
      → IsRevoked id d d'
  unfolding revoke_access_token
  revoke_access_token-eq-ok st d d' n h = elim (Option-cases (first (is_unrevoked id) d.tokens)) [
    | inl none_left ↦ cc (rw (none_left, revoke_access_token) at h)
    | inr (t, e) ↦
        let h' : Path (Outcome DbError (ℕ × Db))
            (ok (
              t.id,
              record d { tokens = update_where (is_unrevoked id) (revoked_token st.time) d.tokens },
            ))
            (ok (n, d')) =
          rw (e, revoke_access_token) at h in
        let same : record d {
          tokens = update_where (is_unrevoked id) (revoked_token st.time) d.tokens;
        }
            ≡ d' =
          cc in
        (
          subst (λ (d : Db). first (is_unrevoked id) d.tokens ≡ none) same
              (first-update_where st.time d.tokens),
          (st.time, sym same),
        )
  ]

  revoke_access_token-no_rows :
      (st : Stamp) (d : Db) → revoke_access_token id st d ≡ err no_rows → IsRevoked id d d
  unfolding revoke_access_token
  revoke_access_token-no_rows st d h = elim (Option-cases (first (is_unrevoked id) d.tokens)) [
    | inr (t, e) ↦ cc (rw (e, revoke_access_token) at h)
    | inl gone ↦
        (gone, (0, ap (λ ts. record d { tokens = ts }) (sym (update_where-none 0 d.tokens gone))))
  ]

  Yields-revocation :
      (workspace_id : ℕ) (actor : Actor) (d : Db) (st : Stamp) (e : DbError)
      → (revoke_access_token id st d ≡ err e) ⊎ (e ≡ other)
      → Yields d (revocation workspace_id id actor (err e)) (λ _ d'. IsRevoked id d d')
  unfolding raise
  Yields-revocation W actor d st no_rows (inl h) =
      Yields-pure d tt (revoke_access_token-no_rows st d h)
  Yields-revocation W actor d st no_rows (inr h) = cc
  Yields-revocation W actor d st unique_violation why = record { at = λ w a s h. cc }
  Yields-revocation W actor d st foreign_key_violation why = record { at = λ w a s h. cc }
  Yields-revocation W actor d st check_violation why = record { at = λ w a s h. cc }
  Yields-revocation W actor d st other why = record { at = λ w a s h. cc }

  revoke-Yields :
      (user_id : ℕ) (actor : Actor) (d : Db)
      → Yields d (revoke user_id id actor) (λ _ d'. IsRevoked id d d')
  unfolding revoke
  revoke-Yields user_id actor d =
      Yields-quiet d _ _ (Respects-require_token_role user_id id admin) (λ _ scope _ _.
        Yields-attempt-run d _ _
          (λ st n d' h. Yields-record_event d' _ (revoke_access_token-eq-ok st d d' n h))
          (Yields-revocation scope.workspace_id actor d))

  -- A `Revoke` that returns leaves no row of the token that is not revoked, and has changed nothing
  -- else in the tables, also where the token was revoked before.
  pub revoke-IsRevoked :
      (user_id : ℕ) (actor : Actor) (w : World)
      → (revoke user_id id actor w).0 ≡ ok tt
      → IsRevoked id w.db (revoke user_id id actor w).1.db
  revoke-IsRevoked user_id actor w h = (revoke-Yields user_id actor w.db).at w tt refl h

-- A row that a search by another test finds, and that is of the identifier and not revoked.
found_unrevoked :
    (id : ℕ) (p : TokenRow → Bool) (rs : List TokenRow) (r : TokenRow)
    → first p rs ≡ some r
    → is_unrevoked id r ≡ true
    → first (is_unrevoked id) rs ≢ none
found_unrevoked id p [] r h live = λ n. cc
found_unrevoked id p (q ∷ rs) r h live = elim (Bool-cases (is_unrevoked id q)) [
  | inl here ↦ λ n. cc (rw here at n)
  | inr gone ↦ elim (Bool-cases (p q)) [
    | inl this ↦ let same : some q ≡ some r = rw this at h in cc gone
    | inr apart ↦ λ n. found_unrevoked id p rs r (rw apart at h) live (rw gone at n)
  ]
]

-- After a `Revoke` that returned, `Authenticate` never returns the revoked token, whatever text is
-- presented, from whatever address and at whatever time.
pub authenticate-revoke :
    (net : Net) (user_id id : ℕ) (actor : Actor) (w w' : World) (plaintext : Text) (ip : net.Addr)
    (a : AuthenticatedToken net)
    → (revoke user_id id actor w).0 ≡ ok tt
    → (revoke user_id id actor w).1.db ≡ w'.db
    → (authenticate net plaintext ip w').0 ≡ ok a
    → a.token.id ≢ id
unfolding access_token_from_row
authenticate-revoke net user_id id actor w w' plaintext ip a revoked same h named =
    let ((row, p, stored, _, _, token, valid, _, _), _) =
      authenticate-IsAdmitted net plaintext ip w' a h in
    let (dead, _) = revoke-IsRevoked id user_id actor w revoked in
    let its_id : row.id ≡ id = sym (ap (λ (t : AccessToken net). t.id) token) ∙ named in
    found_unrevoked id _ w'.db.tokens row stored (ground arith)
      (subst (λ (d : Db). first (is_unrevoked id) d.tokens ≡ none) same dead)
