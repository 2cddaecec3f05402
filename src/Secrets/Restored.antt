-- ===== src/Secrets/Restored.antt =====
-- What `Rollback` stores and what `RevealVersion` and `Reveal` show
-- (backend/internal/service/secret.go).
use vaultly.Prelude.{ℕ, ◌≡◌, ◌∙◌, sym, subst, refl, some, ℤ, pos, first, arith}
use vaultly.Db.{Db, SecretRow, VersionRow, Bytes}
use vaultly.World.{World, ok, Actor, lift, run, translated, translate_db_error}
use vaultly.World.Respects.{
  Respects, sameness, Respects-check, Respects-record_event, Respects-lift, Respects-run,
  respects_rules,
}
use vaultly.World.Returns.{on_error-eq-ok}
use vaultly.World.Yields.{Yields, Yields-pure, Yields-quiet, Yields-in_tx}
use vaultly.Crypto.{decrypt}
use vaultly.Queries.Reads.{read_rules}
use vaultly.Queries.Secrets.{is_secret}
use vaultly.Queries.Versions.{get_secret_version}
use vaultly.Authz.Laws.{Respects-require_secret_role}
use vaultly.Secrets.Defs.{Deps, Secret, sealed_of, aad_of, decrypt_version}
use vaultly.Secrets.Read.{SecretVersion, reveal, reveal_version}
use vaultly.Secrets.Write.{bump, rollback_tx, rollback, update_tx}
use vaultly.Secrets.History.{HasHistory}
use vaultly.Secrets.Preserve.{Respects-load_secret}
use vaultly.Secrets.Outcomes.{load_secret-eq-ok, Revealed, reveal-Yields}
use vaultly.Secrets.Lifecycle.{Advances, update_tx-Advances}

-- A rollback's transaction is that of an update without an expected version.
rollback_tx-Advances :
    (id user_id : ℕ) (t : VersionRow) (comment : _) (w : World) {n : ℕ}
    → HasHistory w.db
    → (rollback_tx id user_id t comment w).0 ≡ ok n
    → Advances id n (sealed_of t) w.db (rollback_tx id user_id t comment w).1.db
unfolding rollback_tx update_tx bump
rollback_tx-Advances id user_id t comment w h e =
    (update_tx-Advances id (pos 0) user_id (sealed_of t) comment w h e).0

Respects-version : (id : ℕ) (v : ℤ) → Respects sameness (translated (run (get_secret_version id v)))
Respects-version id v = search (respects_rules, Respects-run, read_rules)

-- What `GetSecretVersion` finds depends on nothing but the rows.
get_secret_version-eq-ok :
    (id : ℕ) (v : ℤ) (w w' : World) {t u : VersionRow}
    → w.db ≡ w'.db
    → (translated (run (get_secret_version id v)) w).0 ≡ ok t
    → (translated (run (get_secret_version id v)) w').0 ≡ ok u
    → t ≡ u
unfolding get_secret_version
get_secret_version-eq-ok id v w w' same h h' =
    let (d, e, _) = on_error-eq-ok translate_db_error (get_secret_version id v) w h in
    let (d', e', _) = on_error-eq-ok translate_db_error (get_secret_version id v) w' h' in
    ground arith

-- What a `Rollback` that returned has done.
abbrev RolledBack : ℕ → ℕ → ℤ → Db → Secret → Db → Type 0
RolledBack user_id id v d s d' =
    (row : SecretRow) × (t : VersionRow) × (wv wt : World) × (n : ℕ) × (comment : _) × (first
        (is_secret id) d.secrets
      ≡ some row)
    × (d ≡ wv.db)
    × ((translated (run (get_secret_version id v)) wv).0 ≡ ok t)
    × (d ≡ wt.db)
    × ((rollback_tx id user_id t comment wt).0 ≡ ok n)
    × (d' ≡ (rollback_tx id user_id t comment wt).1.db)

rollback-Yields :
    (user_id id : ℕ) (v : ℤ) (actor : Actor) (d : Db)
    → Yields d (rollback user_id id v actor) (RolledBack user_id id v d)
unfolding rollback
rollback-Yields user_id id v actor d =
    Yields-quiet d _ _ (Respects-require_secret_role user_id _ _) (λ _ scope _ _.
      Yields-quiet d _ _ (Respects-load_secret _) (λ wl secret sl loaded.
        Yields-quiet d _ _ (Respects-check _) (λ _ _ _ _.
          Yields-quiet d _ _ (Respects-version id v) (λ wv t sv found_version.
            Yields-in_tx d _ _ (λ wt n st body.
              Yields-quiet _ _ _ (Respects-record_event _) (λ _ _ _ _. Yields-pure _ _ (
                let (row, found, _) = load_secret-eq-ok id wl loaded in
                (
                  row,
                  t,
                  wv,
                  wt,
                  n,
                  _,
                  subst (λ d. first (is_secret id) d.secrets ≡ some row) (sym sl) found,
                  sv,
                  found_version,
                  st,
                  body,
                  refl,
                ))))))))

-- What a `RevealVersion` that returned has done.
abbrev VersionRevealed : Deps → ℕ → ℤ → Db → SecretVersion → Db → Type 0
VersionRevealed deps id v d s d' =
    (row : SecretRow) × (t : VersionRow) × (wv : World) × (p : Bytes) × (first (is_secret id)
        d.secrets
      ≡ some row)
    × (d ≡ wv.db)
    × ((translated (run (get_secret_version id v)) wv).0 ≡ ok t)
    × (decrypt deps.keyring (some (sealed_of t))
          (aad_of deps row.project_id row.environment_id row.key)
        ≡ ok p)
    × (s.value ≡ some p)

reveal_version-Yields :
    (deps : Deps) (user_id id : ℕ) (v : ℤ) (actor : Actor) (d : Db)
    → Yields d (reveal_version deps user_id id v actor) (VersionRevealed deps id v d)
unfolding reveal_version decrypt_version lift
reveal_version-Yields deps user_id id v actor d =
    Yields-quiet d _ _ (Respects-require_secret_role user_id _ _) (λ _ scope _ _.
      Yields-quiet d _ _ (Respects-load_secret _) (λ wl secret sl loaded.
        Yields-quiet d _ _ (Respects-version id v) (λ wv t sv found_version.
          Yields-quiet d _ _ (Respects-lift _) (λ _ p _ opened.
            Yields-quiet d _ _ (Respects-record_event _) (λ _ _ _ _. Yields-pure _ _ (
              let (row, found, same) = load_secret-eq-ok id wl loaded in
              (
                row,
                t,
                wv,
                p,
                subst (λ d. first (is_secret id) d.secrets ≡ some row) (sym sl) found,
                sv,
                found_version,
                subst
                    (λ s.
                      decrypt deps.keyring (some (sealed_of t))
                        (aad_of deps s.project_id s.environment_id s.key)
                      ≡ ok p)
                    (sym same) opened,
                refl,
              )))))))

-- The two decryptions are of one sealed value, for one secret.
same_value :
    (deps : Deps) (id n : ℕ) (v : ℤ) (t : VersionRow) (row : SecretRow) (wv : World)
    (d d' e e' : Db) (old : SecretVersion) (r : Secret)
    → first (is_secret id) d.secrets ≡ some row
    → d ≡ wv.db
    → (translated (run (get_secret_version id v)) wv).0 ≡ ok t
    → Advances id n (sealed_of t) d d'
    → VersionRevealed deps id v d old e
    → Revealed deps id d' r e'
    → r.value ≡ old.value
same_value deps id n v t row wv d d' e e' old r found sv finds a
      (row0, t0, wv0, p0, found0, sv0, finds0, opened0, shown0)
      (row', v', p', found', current', opened', shown', _) =
    let (row2, found2, same_p, same_e, same_k) = a.keeps row found in
    let (x, current, _, same_x) = a.stored in
    let same_row : row' ≡ row2 = cc in
    let same_v : v' ≡ x = cc in
    let same_row0 : row0 ≡ row = cc in
    let same_t : t0 ≡ t = get_secret_version-eq-ok id v wv0 wv (sym sv0 ∙ sv) finds0 finds in
    let same_aad : aad_of deps row'.project_id row'.environment_id row'.key
        ≡ aad_of deps row0.project_id row0.environment_id row0.key =
      rw (same_row, same_p, same_e, same_k, same_row0) refl in
    let same_sealed : sealed_of v' ≡ sealed_of t0 = rw (same_v, same_x, same_t) refl in
    let opens : decrypt deps.keyring (some (sealed_of v'))
          (aad_of deps row'.project_id row'.environment_id row'.key)
        ≡ ok p0 =
      rw (same_aad, same_sealed) opened0 in
    let same : p' ≡ p0 = cc in shown' ∙ rw same (sym shown0)

-- A `Rollback` brings an old value back. If `RevealVersion` returns version `v` of a secret, a
-- `Rollback` of the secret to `v` returns from the same tables with a sound history, and a `Reveal`
-- returns on the tables that it left, then the `Reveal` shows the value that `RevealVersion` showed.
pub reveal-rollback :
    (deps : Deps) (user_id reader id : ℕ) (v : ℤ) (actor : Actor) (w0 w w' : World)
    (old : SecretVersion) (s r : Secret)
    → HasHistory w.db
    → w.db ≡ w0.db
    → (reveal_version deps reader id v actor w0).0 ≡ ok old
    → (rollback user_id id v actor w).0 ≡ ok s
    → (rollback user_id id v actor w).1.db ≡ w'.db
    → (reveal deps reader id actor w').0 ≡ ok r
    → r.value ≡ old.value
reveal-rollback deps user_id reader id v actor w0 w w' old s r h before seen rolled left shown =
    let (row, t, wv, wt, n, comment, found, sv, finds, st, body, now) =
      (rollback-Yields user_id id v actor w.db).at w s refl rolled in
    let a = rollback_tx-Advances id user_id t comment wt (subst HasHistory st h) body in
    same_value deps id n v t row wv w.db w'.db (reveal_version deps reader id v actor w0).1.db
      (reveal deps reader id actor w').1.db old r found sv finds
      (subst (Advances id n (sealed_of t) w.db) (sym now ∙ left) (
        subst (λ d. Advances id n (sealed_of t) d (rollback_tx id user_id t comment wt).1.db)
          (sym st) a))
      ((reveal_version-Yields deps reader id v actor w.db).at w0 old before seen)
      ((reveal-Yields deps reader id actor w'.db).at w' r refl shown)
