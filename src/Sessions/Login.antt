-- ===== src/Sessions/Login.antt =====
-- Who is logged in, and what a refused login shows (backend/internal/service/auth.go).
use vaultly.Prelude.{
  ◌≡◌, ◌⊎◌, inl, inr, refl, sym, subst, ap, false, none, some, Text, map, first, Option-cases,
}
use vaultly.Domain.{Error}
use vaultly.Db.{Db, UserRow}
use vaultly.World.{
  World, Svc, Sql, Outcome, ok, err, DbError, no_rows, Actor, stamp, advance, pure, raise, ◌>>=◌,
  run, random_bytes,
}
use vaultly.World.Returns.{bind-eq-ok, run-eq-ok}
use vaultly.World.Yields.{Yields, Yields-quiet}
use vaultly.Validate.{trim, is_space}
use vaultly.Queries.Members.{get_user_by_email}
use vaultly.Queries.Reads.{get_user_by_email-IsRead, get_user_by_email-eq-ok}
use vaultly.Queries.Accounts.{has_email, user_of}
use vaultly.Passwords.{Argon, HashError, hash_password, verify_password}
use vaultly.World.Steps.{attempt, ignore}
use vaultly.Sessions.Defs.{AuthDeps, Session, login, looked_up, verified}
use vaultly.Sessions.Rules.{
  Respects-attempt-run, Respects-record_across_workspaces, IsOpened, new_session-Yields,
}

-- The address that is searched for.
abbrev pub searched : AuthDeps → Text → Text
searched s email = map s.unicode.lower (trim is_space email)

-- The account of an address, and a session that was opened for it with its password.
abbrev pub IsLogin : AuthDeps → Text → Text → Db → Session → Db → Type 0
IsLogin s email password d x d' =
    (r : UserRow) × (first (has_email s.unicode (searched s email)) d.users ≡ some r)
    × (verify_password s.argon password r.password_hash ≡ ok tt)
    × IsOpened s d (user_of r) x d'

-- An attempt that found something was a statement that returned.
attempt_found :
    {A : Type 0} (m : Sql A) (w : World) (o : Outcome DbError A)
    → (attempt m w).0 ≡ ok o
    → (m w).0 ≡ o
unfolding attempt
attempt_found m w o h = cc

never :
    {A : Type 0} {Q : A → Db → Type 0} (d : Db) (m : Svc A)
    → ((w : World) (a : A) → (m w).0 ≡ ok a → ⊥)
    → Yields d m Q
never d m h = record { at = λ w a s e. absurd (h w a e) }

raise-ne-ok : {A : Type 0} (e : Error) (w : World) (a : A) → (raise e w).0 ≡ ok a → ⊥
unfolding raise
raise-ne-ok e w a h = cc

module _ (s : AuthDeps) (email password : Text) (actor : Actor) (d : Db) where
  refused : {Q : Session → Db → Type 0} (e : Error) → Yields d (raise e) Q
  refused e = never d (raise e) (raise-ne-ok e)

  verified-Yields :
      (r : UserRow) (o : Outcome HashError (Unit {0}))
      → first (has_email s.unicode (searched s email)) d.users ≡ some r
      → verify_password s.argon password r.password_hash ≡ o
      → Yields d (verified s r actor o) (IsLogin s email password d)
  verified-Yields r (err e) found v = refused Error.invalid_credentials
  verified-Yields r (ok u) found v =
      Yields-quiet d _ _ (Respects-record_across_workspaces _ _ _) (λ _ _ _ _. record {
        at = λ w x same h. (r, found, v, (new_session-Yields s d (user_of r) _).at w x same h);
      })

  login-Yields : Yields d (login s email password actor) (IsLogin s email password d)
  unfolding login
  login-Yields =
      Yields-quiet d _ _ (Respects-attempt-run _ (get_user_by_email-IsRead _ _)) (λ w o same ran.
        after w o same
          (attempt_found (run (get_user_by_email s.unicode (searched s email))) w o ran))
    where
      after :
          (w : World) (o : Outcome DbError UserRow)
          → d ≡ w.db
          → (run (get_user_by_email s.unicode (searched s email)) w).0 ≡ o
          → Yields d (looked_up s password actor o) (IsLogin s email password d)
      after w (ok r) same ran =
          let (after_db, e, _) = run-eq-ok (get_user_by_email s.unicode (searched s email)) w ran in
          verified-Yields r _
            (subst (λ d. first (has_email s.unicode (searched s email)) d.users ≡ some r) (sym same)
              (get_user_by_email-eq-ok s.unicode (searched s email) (stamp w) w.db after_db r e))
            refl
      after w (err no_rows) same ran = never d _ (λ w x h.
          let (u, _, stop, _) =
            bind-eq-ok (ignore (hash_password s.argon password))
              (λ _. raise Error.invalid_credentials) w h in
          raise-ne-ok Error.invalid_credentials _ x stop)
      after w (err e) same ran = refused _

-- The hash that is made for nobody only moves the clock.
hash_password-advance : (a : Argon) (p : Text) (w : World) → (hash_password a p w).1 ≡ advance w
unfolding hash_password random_bytes ◌>>=◌ pure
hash_password-advance a p w = elim (Option-cases (w.env.entropy w.tick)) [
  | inl empty ↦ rw (empty, hash_password) refl
  | inr (f, full) ↦ rw (full, hash_password) refl
]

-- A `Login` that returns a session found the account of the address, its stored hash accepts the
-- password, and all that it changed in the tables is one live refresh token of that user, with the
-- digest of the session's.
pub login-IsLogin :
    (s : AuthDeps) (email password : Text) (actor : Actor) (w : World) (x : Session)
    → (login s email password actor w).0 ≡ ok x
    → IsLogin s email password w.db x (login s email password actor w).1.db
login-IsLogin s email password actor w x h =
    (login-Yields s email password actor w.db).at w x refl h

-- Whether nobody has the address, or the stored hash does not accept the password.
abbrev pub IsRefused : AuthDeps → Text → Text → Db → Type 0
IsRefused s email password d =
    (first (has_email s.unicode (searched s email)) d.users ≡ none)
    ⊎ ((r : UserRow) × (e : HashError) × (first (has_email s.unicode (searched s email)) d.users
          ≡ some r)
        × (verify_password s.argon password r.password_hash ≡ err e))

module _ (s : AuthDeps) (email password : Text) (actor : Actor) (w : World) where
  abbrev found_in : Outcome DbError UserRow × World
  found_in = run (get_user_by_email s.unicode (searched s email)) w

  ran_nobody :
      w.env.fails w.tick ≡ false
      → first (has_email s.unicode (searched s email)) w.db.users ≡ none
      → found_in ≡ (err no_rows, advance w)
  unfolding run get_user_by_email
  ran_nobody up nobody = rw (up, get_user_by_email, nobody) refl

  ran_somebody :
      (r : UserRow)
      → w.env.fails w.tick ≡ false
      → first (has_email s.unicode (searched s email)) w.db.users ≡ some r
      → found_in ≡ (ok r, advance w)
  unfolding run get_user_by_email
  ran_somebody r up found = rw (up, get_user_by_email, found) refl

  -- Where the search for the account does not fail, a login with an address that nobody has and a
  -- login with a password that the stored hash does not accept return the same error, change no
  -- table, and leave no audit record.
  pub login-invalid_credentials :
      w.env.fails w.tick ≡ false
      → IsRefused s email password w.db
      → ((login s email password actor w).0 ≡ err Error.invalid_credentials)
        × ((login s email password actor w).1.db ≡ w.db)
        × ((login s email password actor w).1.audit ≡ w.audit)
  unfolding login attempt ignore ◌>>=◌ raise
  login-invalid_credentials up (inl nobody) = rw (ran_nobody up nobody) (
    refl,
    ap (λ w. w.db) (hash_password-advance s.argon password (advance w)),
    ap (λ w. w.audit) (hash_password-advance s.argon password (advance w)),
  )
  login-invalid_credentials up (inr (r, e, found, bad)) =
      rw (ran_somebody r up found, bad) (refl, refl, refl)
