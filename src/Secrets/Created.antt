-- ===== src/Secrets/Created.antt =====
-- The value that `Create` is given and the value that `Reveal` shows
-- (backend/internal/service/secret.go).
use vaultly.Prelude.{ℕ, ◌≡◌, ◌∙◌, sym, subst, ap, refl, some, ◌∷◌, Text, codes, pos, first, arith}
use vaultly.Db.{Db, SecretRow, VersionRow, Bytes}
use vaultly.World.{World, ok, pure, Actor, Stamp, stamp, run, translated, translate_db_error}
use vaultly.World.Respects.{
  Respects, sameness, Respects-check, Respects-record_event, Respects-run, respects_rules,
}
use vaultly.World.Returns.{bind-eq-ok, query-eq-ok}
use vaultly.World.Yields.{ok_injective, Yields, Yields-pure, Yields-quiet, Yields-in_tx}
use vaultly.Crypto.{Sealed, IsAead, encrypt, decrypt}
use vaultly.Crypto.RoundTrip.{decrypt-encrypt}
use vaultly.Crypto.Quiet.{Respects-encrypt}
use vaultly.Queries.Reads.{read_rules}
use vaultly.Queries.Secrets.{
  is_secret, CreateSecretParams, new_secret, create_secret, secret_key_exists,
  bump_secret_version_unchecked,
}
use vaultly.Queries.Versions.{latest}
use vaultly.Authz.Laws.{Respects-require_environment_role}
use vaultly.Secrets.Defs.{Deps, Secret, sealed_of, aad_of}
use vaultly.Secrets.Read.{reveal}
use vaultly.Secrets.Write.{CreateInput, bump, add_version, create_tx, create}
use vaultly.Secrets.Numbers.{numbers, countdown, HasUniqueIds}
use vaultly.Secrets.Effects.{create_secret-Settles}
use vaultly.Secrets.History.{HasHistory, bump-Moves}
use vaultly.Secrets.Bumps.{bump-Keeps}
use vaultly.Secrets.Latest.{latest_cons}
use vaultly.Secrets.Outcomes.{add_version-eq-ok, Revealed, reveal-Yields}

-- A live secret of the place, whose current version is the sealed value.
abbrev pub Stores : ℕ → ℕ → ℕ → Text → Sealed → Db → Type 0
Stores id project_id environment_id key x d =
    (row : SecretRow) × (v : VersionRow) × (first (is_secret id) d.secrets ≡ some row)
    × (row.project_id ≡ project_id)
    × (row.environment_id ≡ environment_id)
    × (row.key ≡ key)
    × (latest id d.versions ≡ some v)
    × (sealed_of v ≡ x)

create_secret-eq-ok :
    (p : CreateSecretParams) (st : Stamp) (d d' : Db) (row : SecretRow)
    → create_secret p st d ≡ ok (row, d')
    → (new_secret p st ≡ row) × (record d { secrets = new_secret p st ∷ d.secrets } ≡ d')
unfolding create_secret
create_secret-eq-ok p st d d' row h = ground arith

first_new :
    (p : CreateSecretParams) (st : Stamp) (d d' : Db) (row : SecretRow)
    → create_secret p st d ≡ ok (row, d')
    → (first (is_secret row.id) d'.secrets ≡ some row)
      × (row.project_id ≡ p.project_id)
      × (row.environment_id ≡ p.environment_id)
      × (row.key ≡ p.key)
      × (d'.versions ≡ d.versions)
first_new p st d d' row h =
    let (same, new) = create_secret-eq-ok p st d d' row h in
    rw (← same, ← new) (ground arith, refl, refl, refl, refl)

-- The last step of the transaction: the pointer moves to the version that is there.
Stores-bump :
    (id user : ℕ) (row : SecretRow) (v : VersionRow) (x : Sealed) (w : World) {n : ℕ}
    → HasUniqueIds w.db.secrets
    → first (is_secret id) w.db.secrets ≡ some row
    → latest id w.db.versions ≡ some v
    → sealed_of v ≡ x
    → (translated (run (bump_secret_version_unchecked id (some user))) w).0 ≡ ok n
    → Stores id row.project_id row.environment_id row.key x
        (translated (run (bump_secret_version_unchecked id (some user))) w).1.db
unfolding bump
Stores-bump id user row v x w unique found current same h =
    let (row', found', same_p, same_e, same_k) = bump-Keeps id (pos 0) user w h row found in
    let (_, moves) = bump-Moves id (pos 0) user w unique h in
    (row', v, found', same_p, same_e, same_k, rw moves.versions current, same)

pub create_tx-Stores :
    (user project_id environment_id : ℕ) (key description : Text) (x : Sealed) (w : World)
    {s : Secret}
    → HasHistory w.db
    → (create_tx user project_id environment_id key description x w).0 ≡ ok s
    → Stores s.id project_id environment_id key x
        (create_tx user project_id environment_id key description x w).1.db
unfolding create_tx pure
create_tx-Stores user project_id environment_id key description x w {s} h e =
    let (created, w1, inserted, rest, same) =
      query-eq-ok translate_db_error (create_secret _) _ w e in
    let (row, added, rest', same') =
      bind-eq-ok (add_version created.id 1 x (codes "created") user) _ w1 rest in
    let w2 = (add_version created.id 1 x (codes "created") user w1).1 in
    let (n, moved, rest'', same'') =
      bind-eq-ok (translated (run (bump_secret_version_unchecked created.id (some user)))) _ w2
        rest' in
    let (new, settled) = create_secret-Settles (stamp w) w.db w1.db h.unique _ created inserted in
    let (found, same_p, same_e, same_k, versions) =
      first_new _ (stamp w) w.db w1.db created inserted in
    let (v, same_id, same_n, same_x, left) =
      add_version-eq-ok created.id 1 x (codes "created") user w1 added in
    let id = created.id in
    let no_rows : numbers id w1.db.versions ≡ countdown 0 = rw versions (
      subst (λ k. numbers id w.db.versions ≡ countdown k) (sym (settled.pointer id) ∙ new)
        (h.counts id)) in
    let (row', v', found', p, q, k, current, sealed) =
      Stores-bump id user created v x w2
        (subst (λ d. HasUniqueIds d.secrets) (sym left) settled.unique)
        (subst (λ d. first (is_secret id) d.secrets ≡ some created) (sym left) found)
        (subst (λ d. latest id d.versions ≡ some v) (sym left)
          (latest_cons id 0 v w1.db.versions same_id same_n no_rows))
        same_x moved in
    subst
      (λ i.
        Stores i project_id environment_id key x
          (create_tx user project_id environment_id key description x w).1.db)
      (ap (λ s. s.id) (ok_injective rest''))
      (subst (Stores id project_id environment_id key x)
        (sym (ap (λ w. w.db) (same ∙ same' ∙ same'')))
        (row', v', found', p ∙ same_p, q ∙ same_e, k ∙ same_k, current, sealed))

-- What a `Create` that returned has done: it sealed the value for the key, as it was trimmed, and
-- for the environment's project, and its transaction committed on the tables as they were.
abbrev pub Created : Deps → CreateInput → Db → Secret → Db → Type 0
Created deps input d s d' =
    (project_id user : ℕ) × (key description : Text) × (x : Sealed) × (we wt : World) × ((encrypt
        deps.keyring input.value (aad_of deps project_id input.environment_id key) we).0
      ≡ ok x)
    × (d ≡ wt.db)
    × ((create_tx user project_id input.environment_id key description x wt).0 ≡ ok s)
    × (d' ≡ (create_tx user project_id input.environment_id key description x wt).1.db)

Respects-exists :
    (id : ℕ) (key : Text) → Respects sameness (translated (run (secret_key_exists id key)))
Respects-exists id key = search (respects_rules, Respects-run, read_rules)

pub create-Yields :
    (deps : Deps) (user_id : ℕ) (input : CreateInput) (d : Db)
    → Yields d (create deps user_id input) (Created deps input d)
unfolding create
create-Yields deps user_id input d =
    Yields-quiet d _ _ (Respects-require_environment_role user_id _ _) (λ _ scope _ _.
      Yields-quiet d _ _ (Respects-check _) (λ _ _ _ _.
        Yields-quiet d _ _ (Respects-exists _ _) (λ _ _ _ _.
          Yields-quiet d _ _ (Respects-check _) (λ _ _ _ _.
            Yields-quiet d _ _ (Respects-encrypt _ _ _) (λ we x _ enc.
              Yields-in_tx d _ _ (λ wt s st body.
                Yields-quiet _ _ _ (Respects-record_event _) (λ _ _ _ _.
                  Yields-pure _ _
                    (scope.project_id, user_id, _, _, x, we, wt, enc, st, body, refl))))))))

-- What was sealed and stored is what is shown.
shows_stored :
    (deps : Deps) (aead : IsAead deps.keyring.cipher) (id p e : ℕ) (key : Text) (value : Bytes)
    (x : Sealed) (we : World) (d d' : Db) (r : Secret)
    → (encrypt deps.keyring value (aad_of deps p e key) we).0 ≡ ok x
    → Stores id p e key x d
    → Revealed deps id d r d'
    → r.value ≡ some value
shows_stored deps aead id p e key value x we d d' r enc
      (row, v, found, same_p, same_e, same_k, current, sealed)
      (row', v', q, found', current', opened, shown, _) =
    let same_row : row' ≡ row = cc in
    let same_v : v' ≡ v = cc in
    let round = decrypt-encrypt deps.keyring aead value (aad_of deps p e key) we x enc in
    let opens : decrypt deps.keyring (some (sealed_of v'))
          (aad_of deps row'.project_id row'.environment_id row'.key)
        ≡ ok value =
      rw (same_row, same_p, same_e, same_k, same_v, sealed) round in
    let same : q ≡ value = cc in shown ∙ rw same refl

-- Over a cipher with the laws `IsAead`: a `Create` that returns, from a sound history, returns a secret whose value can be read: a `Reveal`
-- of that secret, by anyone, on tables as the `Create` left them, shows the value that was given, if
-- it returns.
pub reveal-create :
    (deps : Deps) (aead : IsAead deps.keyring.cipher) (user_id reader : ℕ) (input : CreateInput)
    (actor : Actor) (w w' : World) (s r : Secret)
    → HasHistory w.db
    → (create deps user_id input w).0 ≡ ok s
    → (create deps user_id input w).1.db ≡ w'.db
    → (reveal deps reader s.id actor w').0 ≡ ok r
    → r.value ≡ some input.value
reveal-create deps aead user_id reader input actor w w' s r h created left shown =
    let (p, user, key, description, x, we, wt, enc, st, body, now) =
      (create-Yields deps user_id input w.db).at w s refl created in
    let stores =
      create_tx-Stores user p input.environment_id key description x wt (subst HasHistory st h)
        body in
    shows_stored deps aead s.id p input.environment_id key input.value x we w'.db
      (reveal deps reader s.id actor w').1.db r enc
      (subst (Stores s.id p input.environment_id key x) (sym now ∙ left) stores)
      ((reveal-Yields deps reader s.id actor w'.db).at w' r refl shown)
