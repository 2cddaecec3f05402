-- ===== src/Secrets/Outcomes.antt =====
-- What a write that returned has done, step by step (backend/internal/service/secret.go).
use vaultly.Prelude.{ℕ, ◌≡◌, ◌∙◌, sym, subst, refl, some, ◌∷◌, Text, codes, first, arith}
use vaultly.Db.{Db, Bytes, SecretRow, VersionRow}
use vaultly.World.{World, ok, pure, run, translated, lift, Actor, Stamp, stamp, translate_db_error}
use vaultly.World.Respects.{
  Respects-check, Respects-record_event, Respects-lift, Respects-run, respects_rules,
}
use vaultly.World.Yields.{Yields, Yields-pure, Yields-quiet, Yields-in_tx}
use vaultly.World.Returns.{query-eq-ok, on_error-eq-ok}
use vaultly.Crypto.{Sealed, encrypt, decrypt}
use vaultly.Crypto.Quiet.{Respects-encrypt}
use vaultly.Queries.Secrets.{is_secret, get_secret}
use vaultly.Queries.Reads.{read_rules}
use vaultly.Queries.Versions.{
  latest, get_current_secret_version, CreateVersionParams, new_version, create_secret_version,
}
use vaultly.Authz.Laws.{Respects-require_secret_role}
use vaultly.Secrets.Read.{reveal}
use vaultly.Secrets.Defs.{decrypt_version, Deps, Secret, from_row, sealed_of, aad_of, load_secret}
use vaultly.Secrets.Preserve.{Respects-load_secret}
use vaultly.Secrets.Write.{UpdateInput, add_version, update_tx, update, or_default}

get_secret-eq-ok :
    (id : ℕ) (st : _) (d d' : Db) (row : SecretRow)
    → get_secret id st d ≡ ok (row, d')
    → first (is_secret id) d.secrets ≡ some row
unfolding get_secret
get_secret-eq-ok id st d d' row h = ground arith

-- `load_secret` returns a live row.
pub load_secret-eq-ok :
    (id : ℕ) (w : World) {s : Secret}
    → (load_secret id w).0 ≡ ok s
    → (row : SecretRow) × (first (is_secret id) w.db.secrets ≡ some row) × (from_row row ≡ s)
unfolding load_secret pure
load_secret-eq-ok id w h =
    let (row, w', e, rest, _) = query-eq-ok translate_db_error (get_secret id) _ w h in
    (row, get_secret-eq-ok id (stamp w) w.db w'.db row e, cc rest)

create_secret_version-eq-ok :
    (p : CreateVersionParams) (st : Stamp) (d d' : Db) (row : VersionRow)
    → create_secret_version p st d ≡ ok (row, d')
    → d' ≡ record d { versions = new_version p st ∷ d.versions }
unfolding create_secret_version
create_secret_version-eq-ok p st d d' row h = ground arith

-- A new row of the history holds what it was given.
pub add_version-eq-ok :
    (id n : ℕ) (s : Sealed) (comment : Text) (user_id : ℕ) (w : World) {row : VersionRow}
    → (add_version id n s comment user_id w).0 ≡ ok row
    → (v : VersionRow) × (v.secret_id ≡ id)
      × (v.version ≡ n)
      × (sealed_of v ≡ s)
      × ((add_version id n s comment user_id w).1.db ≡ record w.db { versions = v ∷ w.db.versions })
unfolding add_version
add_version-eq-ok id n s comment user_id w {row} h =
    let (d, e, db) = on_error-eq-ok translate_db_error (create_secret_version _) w h in
    (
      new_version _ (stamp w),
      refl,
      refl,
      refl,
      db ∙ create_secret_version-eq-ok _ (stamp w) w.db d row e,
    )

-- What an `Update` that returned has done: it loaded a live secret, sealed the value for it, and
-- its transaction committed on the tables as they were.
abbrev pub Updated : Deps → ℕ → UpdateInput → Db → Secret → Db → Type 0
Updated deps user_id input d s d' =
    (row : SecretRow) × (x : Sealed) × (we wt : World) × (n : ℕ) × (first
        (is_secret input.secret_id) d.secrets
      ≡ some row)
    × ((encrypt deps.keyring input.value (aad_of deps row.project_id row.environment_id row.key)
          we).0
        ≡ ok x)
    × (d ≡ wt.db)
    × ((update_tx input.secret_id input.expected_version user_id x
          (or_default input.comment (codes "updated")) wt).0
        ≡ ok n)
    × (d'
        ≡ (update_tx input.secret_id input.expected_version user_id x
            (or_default input.comment (codes "updated")) wt).1.db)
    × (s.current_version ≡ n)

pub update-Yields :
    (deps : Deps) (user_id : ℕ) (input : UpdateInput) (d : Db)
    → Yields d (update deps user_id input) (Updated deps user_id input d)
unfolding update
update-Yields deps user_id input d =
    Yields-quiet d _ _ (Respects-require_secret_role user_id _ _) (λ _ scope _ _.
      Yields-quiet d _ _ (Respects-check _) (λ _ _ _ _.
        Yields-quiet d _ _ (Respects-load_secret _) (λ wl secret sl loaded.
          Yields-quiet d _ _ (Respects-encrypt _ _ _) (λ we x se enc.
            Yields-in_tx d _ _ (λ wt n st body.
              Yields-quiet _ _ _ (Respects-record_event _) (λ _ _ _ _. Yields-pure _ _ (
                let (row, found, same) = load_secret-eq-ok input.secret_id wl loaded in
                (
                  row,
                  x,
                  we,
                  wt,
                  n,
                  subst (λ d. first (is_secret input.secret_id) d.secrets ≡ some row) (sym sl)
                      found,
                  subst
                      (λ t.
                        (encrypt deps.keyring input.value
                          (aad_of deps t.project_id t.environment_id t.key) we).0
                        ≡ ok x)
                      (sym same) enc,
                  st,
                  body,
                  refl,
                  refl,
                ))))))))

-- What a `Reveal` that returned has done: it decrypted the current version of a live secret.
abbrev pub Revealed : Deps → ℕ → Db → Secret → Db → Type 0
Revealed deps id d s d' =
    (row : SecretRow) × (v : VersionRow) × (p : Bytes) × (first (is_secret id) d.secrets ≡ some row)
    × (latest id d.versions ≡ some v)
    × (decrypt deps.keyring (some (sealed_of v))
          (aad_of deps row.project_id row.environment_id row.key)
        ≡ ok p)
    × (s.value ≡ some p)
    × (d' ≡ d)

current-eq-ok :
    (id : ℕ) (w : World) {v : VersionRow}
    → (translated (run (get_current_secret_version id)) w).0 ≡ ok v
    → latest id w.db.versions ≡ some v
unfolding get_current_secret_version
current-eq-ok id w h =
    let (d, e, _) = on_error-eq-ok translate_db_error (get_current_secret_version id) w h in
    ground arith

pub reveal-Yields :
    (deps : Deps) (user_id id : ℕ) (actor : Actor) (d : Db)
    → Yields d (reveal deps user_id id actor) (Revealed deps id d)
unfolding reveal decrypt_version lift
reveal-Yields deps user_id id actor d =
    Yields-quiet d _ _ (Respects-require_secret_role user_id _ _) (λ _ scope _ _.
      Yields-quiet d _ _ (Respects-load_secret _) (λ wl secret sl loaded.
        Yields-quiet d _ _ (search (respects_rules, Respects-run, read_rules)) (λ wv v sv current.
          Yields-quiet d _ _ (Respects-lift _) (λ wd p _ opened.
            Yields-quiet d _ _ (Respects-record_event _) (λ _ _ _ _. Yields-pure _ _ (
              let (row, found, same) = load_secret-eq-ok id wl loaded in
              (
                row,
                v,
                p,
                subst (λ d. first (is_secret id) d.secrets ≡ some row) (sym sl) found,
                subst (λ d. latest id d.versions ≡ some v) (sym sv) (current-eq-ok id wv current),
                subst
                    (λ t.
                      decrypt deps.keyring (some (sealed_of v))
                        (aad_of deps t.project_id t.environment_id t.key)
                      ≡ ok p)
                    (sym same) opened,
                refl,
                refl,
              )))))))
