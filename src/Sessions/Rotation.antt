-- ===== src/Sessions/Rotation.antt =====
-- The rotation and the end of sessions (backend/internal/service/auth.go).
use vaultly.Prelude.{
  ℕ, ◌≡◌, ◌≢◌, refl, sym, subst, ap, ◌∙◌, false, ◌&&◌, none, some, List, [], ◌∷◌, Text, text_eq,
  text_eq→eq, first, ◌==◌, update_where, Option-cases, Bool-cases, inl, inr,
}
use vaultly.Db.{Db, Bytes, UserRow, RefreshRow}
use vaultly.World.{World, Outcome, ok, err, DbError, Actor, Stamp, stamp, translate_db_error}
use vaultly.World.Respects.{Respects, Respects-check, Respects-pure, sameness}
use vaultly.World.Returns.{on_error-eq-ok, query_next}
use vaultly.World.Yields.{Yields, Yields-quiet, Yields-run, Yields-in_tx, Yields-pure}
use vaultly.Queries.Reads.{IsRead}
use vaultly.Queries.Accounts.{
  User, user_of, is_live, is_usable, revoked, get_active_refresh_token, revoke_refresh_token,
  get_user_by_id, new_refresh_token,
}
use vaultly.Sessions.Issuer.{GeneratedToken}
use vaultly.Sessions.Defs.{
  refresh_found, AuthDeps, Session, refresh, refresh_tx, refresh_token_params, unknown_session,
  logout, logout_token, logged_out,
}
use vaultly.Sessions.Rules.{
  Respects-attempt-run, Respects-record_across_workspaces, Respects-read, Respects-now,
  Respects-generate, Respects-issue, Yields-last, create_refresh_token-eq-ok,
  generate_refresh_token-eq-ok,
}

abbrev pub revoke : Bytes → ℕ → List RefreshRow → List RefreshRow
revoke hash t rs = update_where (λ r. text_eq r.token_hash hash && is_live r) (revoked t) rs

-- No row with a digest is usable once the digest has been revoked.
revoke-first :
    (hash : Bytes) (t now : ℕ) (rs : List RefreshRow)
    → first (is_usable hash now) (revoke hash t rs) ≡ none
revoke-first hash t now [] = refl
revoke-first hash t now (r ∷ rs) = elim (Bool-cases (text_eq r.token_hash hash)) [
  | inr other ↦ rw (other, other) (revoke-first hash t now rs)
  | inl same ↦ elim (Option-cases r.revoked_at) [
    | inl live ↦ rw (same, live, same) (revoke-first hash t now rs)
    | inr (before, dead) ↦ rw (same, dead, same) (revoke-first hash t now rs)
  ]
]

get_active_refresh_token-eq-ok :
    (hash : Bytes) (st : Stamp) (d d' : Db) (r : RefreshRow)
    → get_active_refresh_token hash st d ≡ ok (r, d')
    → (first (is_usable hash st.time) d.refresh_tokens ≡ some r) × (d ≡ d')
unfolding get_active_refresh_token
get_active_refresh_token-eq-ok hash st d d' r h =
    elim (Option-cases (first (is_usable hash st.time) d.refresh_tokens)) [
      | inl nothing ↦ cc (rw (nothing, get_active_refresh_token) at h)
      | inr (q, e) ↦
          let h' : Path (Outcome DbError (RefreshRow × Db)) (ok (q, d)) (ok (r, d')) =
            rw (e, get_active_refresh_token) at h in
          (e ∙ ap some (cc), cc)
    ]

get_active_refresh_token-IsRead : (hash : Bytes) → IsRead (get_active_refresh_token hash)
get_active_refresh_token-IsRead hash = record {
  at = λ s d a d' e. (get_active_refresh_token-eq-ok hash s d d' a e).1;
}

get_user_by_id-eq-ok :
    (id : ℕ) (st : Stamp) (d d' : Db) (u : User)
    → get_user_by_id id st d ≡ ok (u, d')
    → ((r : UserRow) × (first (λ r. r.id == id) d.users ≡ some r) × (u ≡ user_of r)) × (d ≡ d')
unfolding get_user_by_id
get_user_by_id-eq-ok id st d d' u h = elim (Option-cases (first (λ r. r.id == id) d.users)) [
  | inl nobody ↦ cc (rw (nobody, get_user_by_id) at h)
  | inr (r, e) ↦
      let h' : Path (Outcome DbError (User × Db)) (ok (user_of r, d)) (ok (u, d')) =
        rw (e, get_user_by_id) at h in
      ((r, e, cc), cc)
]

get_user_by_id-IsRead : (id : ℕ) → IsRead (get_user_by_id id)
get_user_by_id-IsRead id = record { at = λ s d a d' e. (get_user_by_id-eq-ok id s d d' a e).1 }

revoke_refresh_token-eq-ok :
    (hash : Bytes) (st : Stamp) (d d' : Db) {u : Unit {0}}
    → revoke_refresh_token hash st d ≡ ok (u, d')
    → d' ≡ record d { refresh_tokens = revoke hash st.time d.refresh_tokens }
unfolding revoke_refresh_token
revoke_refresh_token-eq-ok hash st d d' h = cc

-- What a rotation leaves: the tokens of the digest revoked, and one new live token of the user.
pub record IsRotated (s : AuthDeps) (d : Db) (user_id : ℕ) (hash : Bytes) (next : GeneratedToken)
    (d' : Db) : Type 0 where
  pub row : RefreshRow
  pub time : ℕ
  pub tables : d' ≡ record d { refresh_tokens = row ∷ revoke hash time d.refresh_tokens }
  pub owner : row.user_id ≡ user_id
  pub digest : row.token_hash ≡ next.hash
  pub live : row.revoked_at ≡ none

refresh_tx-Yields :
    (s : AuthDeps) (d : Db) (user_id : ℕ) (hash : Bytes) (next : GeneratedToken) (t : ℕ)
    (actor : Actor)
    → Yields d (refresh_tx s user_id hash next t actor) (λ _ d'. IsRotated s d user_id hash next d')
unfolding refresh_tx refresh_token_params
refresh_tx-Yields s d user_id hash next t actor = Yields-run d translate_db_error _ _ (λ st u d1 e.
    record {
      at = λ w r same h.
          let (after_db, made, left) = on_error-eq-ok translate_db_error _ w h in
          let gone = revoke_refresh_token-eq-ok hash st d d1 e in
          record {
            row = new_refresh_token (refresh_token_params s user_id next.hash t actor) (stamp w);
            time = st.time;
            tables =
                left
                ∙ create_refresh_token-eq-ok _ (stamp w) w.db after_db r made
                ∙ ap
                    (λ (b : Db). record b {
                      refresh_tokens =
                          new_refresh_token (refresh_token_params s user_id next.hash t actor)
                            (stamp w)
                          ∷ b.refresh_tokens;
                    })
                    (sym same ∙ gone);
            owner = refl;
            digest = refl;
            live = refl;
          };
    })

-- A session that was refreshed at a time: the presented token was usable then, its user exists, and it
-- is rotated.
abbrev pub IsRefreshed : AuthDeps → Text → ℕ → Db → Session → Db → Type 0
IsRefreshed s token now d x d' =
    (stored : RefreshRow) × (r : UserRow) × (next : GeneratedToken) × (first
        (is_usable (s.digests.hash_token token) now) d.refresh_tokens
      ≡ some stored)
    × (first (λ r. r.id == stored.user_id) d.users ≡ some r)
    × (x.user ≡ user_of r)
    × (x.refresh_token ≡ next.plaintext)
    × (next.hash ≡ s.digests.hash_token next.plaintext)
    × IsRotated s d r.id (s.digests.hash_token token) next d'

IsRotated-for :
    {s : AuthDeps} {d : Db} {u : User} {hash : Bytes} {next : GeneratedToken} (r : UserRow)
    (d' : Db)
    → u ≡ user_of r
    → IsRotated s d u.id hash next d'
    → IsRotated s d r.id hash next d'
unfolding user_of
IsRotated-for {s} {d} {u} {hash} {next} r d' same h =
    subst (λ (u : User). IsRotated s d u.id hash next d') same h

module _ (s : AuthDeps) (token : Text) (actor : Actor) (now : ℕ) (d : Db) (stored : RefreshRow)
    (found : first (is_usable (s.digests.hash_token token) now) d.refresh_tokens
      ≡ some stored) where
  refresh_found-Yields : Yields d (refresh_found s token actor stored) (IsRefreshed s token now d)
  unfolding refresh_found user_of
  refresh_found-Yields =
      Yields-quiet d _ _ (Respects-read unknown_session _ (get_user_by_id-IsRead _))
        (λ w2 user s2 ran2. Yields-quiet d _ _ (Respects-generate s.digests) (λ w3 next _ ran3.
          Yields-quiet d _ _ Respects-now (λ _ time _ _. Yields-in_tx d _ _ (λ w4 new s4 ran4.
            Yields-quiet _ _ _ (Respects-issue s.issuer user.id user.email) (λ _ access _ _.
              Yields-pure _ _ (
                let (after2, e2, _) = on_error-eq-ok unknown_session _ w2 ran2 in
                let ((r, theirs, same), _) =
                  get_user_by_id-eq-ok _ (stamp w2) w2.db after2 user e2 in
                (
                  stored,
                  r,
                  next,
                  found,
                  subst (λ d. first (λ r. r.id == stored.user_id) d.users ≡ some r) (sym s2) theirs,
                  same,
                  refl,
                  generate_refresh_token-eq-ok s.digests w3 next ran3,
                  IsRotated-for r _ same (
                      (refresh_tx-Yields s d user.id (s.digests.hash_token token) next _ actor).at
                        w4 new s4 ran4),
                )))))))

-- A `Refresh` that returns a session was given a token that was stored, not revoked and not expired at
-- the time of the search, of a user who exists and who is the session's; and all that it changed
-- in the tables is that the rows of the presented token are revoked and one live row, with the digest
-- of the session's token, is that user's.
pub refresh-IsRefreshed :
    (s : AuthDeps) (token : Text) (actor : Actor) (w : World) (x : Session)
    → (refresh s token actor w).0 ≡ ok x
    → IsRefreshed s token (w.env.now w.tick) w.db x (refresh s token actor w).1.db
unfolding refresh
refresh-IsRefreshed s token actor w x h =
    let (stored, d, e, rest, same) = query_next unknown_session _ _ w h in
    let (found, kept) = get_active_refresh_token-eq-ok _ (stamp w) w.db d stored e in
    subst (λ (w' : World). IsRefreshed s token (w.env.now w.tick) w.db x w'.db) (sym same)
      ((refresh_found-Yields s token actor (w.env.now w.tick) w.db stored found).at _ x kept rest)

other_digest : (a b : Bytes) → a ≢ b → text_eq a b ≡ false
other_digest a b ne = elim (Bool-cases (text_eq a b)) [
  | inl same ↦ absurd (ne (text_eq→eq a b same))
  | inr other ↦ other
]

-- After a `Refresh` that returned, no row answers to the presented token at any time, unless the new
-- token has the same digest.
pub refresh-refresh :
    (s : AuthDeps) (token : Text) (actor : Actor) (w : World) (x : Session) (now : ℕ)
    → (refresh s token actor w).0 ≡ ok x
    → s.digests.hash_token x.refresh_token ≢ s.digests.hash_token token
    → first
        (is_usable (s.digests.hash_token token) now)
        (refresh s token actor w).1.db.refresh_tokens
      ≡ none
refresh-refresh s token actor w x now h ne =
    let (_, _, next, _, _, _, plain, digest, rotated) = refresh-IsRefreshed s token actor w x h in
    let hash = s.digests.hash_token token in
    let other : text_eq rotated.row.token_hash hash ≡ false =
      other_digest rotated.row.token_hash hash
        (λ e. ne (ap s.digests.hash_token plain ∙ sym digest ∙ sym rotated.digest ∙ e)) in
    subst (λ (d : Db). first (is_usable hash now) d.refresh_tokens ≡ none) (sym rotated.tables)
      (rw other (revoke-first hash rotated.time now w.db.refresh_tokens))

logged_out-Respects :
    (actor : Actor) (o : Outcome DbError RefreshRow) → Respects sameness (logged_out actor o)
logged_out-Respects actor (ok r) = Respects-record_across_workspaces _ _ _
logged_out-Respects actor (err e) = Respects-pure tt

-- The rows of a logout: the digest is revoked at some time, and nothing else.
abbrev pub IsLoggedOut : Bytes → Db → Db → Type 0
IsLoggedOut hash d d' =
    (t : ℕ) × (d' ≡ record d { refresh_tokens = revoke hash t d.refresh_tokens })

logout_token-Yields :
    (s : AuthDeps) (token : Text) (actor : Actor) (d : Db)
    → Yields d (logout_token s token actor) (λ _ d'. IsLoggedOut (s.digests.hash_token token) d d')
logout_token-Yields s token actor d =
    Yields-quiet d _ _ (Respects-attempt-run _ (get_active_refresh_token-IsRead _)) (λ _ stored _ _.
      Yields-quiet d _ _ (Respects-check _) (λ _ _ _ _.
        Yields-run d translate_db_error _ _ (λ st u d' e.
          Yields-last d' _ (logged_out-Respects actor stored)
            (λ _. (st.time, revoke_refresh_token-eq-ok _ st d d' e)))))

-- A `Logout` that returns, of a token that is not empty, known or not, has revoked the live rows of
-- the token and changed nothing else in the tables; and no row answers to the token at any time after.
pub logout-IsLoggedOut :
    (s : AuthDeps) (c : ℕ) (rest : Text) (actor : Actor) (w : World) (u : Unit {0}) (now : ℕ)
    → (logout s (c ∷ rest) actor w).0 ≡ ok u
    → IsLoggedOut (s.digests.hash_token (c ∷ rest)) w.db (logout s (c ∷ rest) actor w).1.db
      × (first
            (is_usable (s.digests.hash_token (c ∷ rest)) now)
            (logout s (c ∷ rest) actor w).1.db.refresh_tokens
          ≡ none)
unfolding logout
logout-IsLoggedOut s c rest actor w u now h =
    let hash = s.digests.hash_token (c ∷ rest) in
    let (t, e) = (logout_token-Yields s (c ∷ rest) actor w.db).at w u refl h in
    (
      (t, e),
      subst (λ (d : Db). first (is_usable hash now) d.refresh_tokens ≡ none) (sym e)
          (revoke-first hash t now w.db.refresh_tokens),
    )
