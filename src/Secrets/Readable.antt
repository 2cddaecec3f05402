-- ===== src/Secrets/Readable.antt =====
-- That a value can be read once it is stored (`Create` and `Reveal` of
-- backend/internal/service/secret.go).
use vaultly.Prelude.{ℕ, ◌≡◌, ◌∙◌, refl, sym, subst, true, false, some, first}
use vaultly.Domain.{member, at_least}
use vaultly.Domain.Order.{at_least-valid}
use vaultly.Db.{Bytes, SecretRow, VersionRow}
use vaultly.World.{World, ok, Actor, pure, ◌>>=◌, lift, run, on_error, record_event}
use vaultly.Crypto.{IsAead, decrypt}
use vaultly.Crypto.RoundTrip.{decrypt-encrypt}
use vaultly.Queries.Roles.{RoleRow, secret_role, get_workspace_role_by_secret}
use vaultly.Queries.Secrets.{is_secret, get_secret}
use vaultly.Queries.Versions.{latest, get_current_secret_version}
use vaultly.Authz.{require_role, require_secret_role}
use vaultly.Secrets.Defs.{Deps, Secret, from_row, sealed_of, aad_of, load_secret, decrypt_version}
use vaultly.Secrets.Read.{reveal}
use vaultly.Secrets.Write.{CreateInput, create}
use vaultly.Secrets.History.{HasHistory}
use vaultly.Secrets.Created.{Stores, create_tx-Stores, create-Yields}

-- A call of `Reveal` whose statements do not fail, by a member, on a live secret whose current version
-- opens.
reveal_returns :
    (deps : Deps) (user id : ℕ) (actor : Actor) (w : World) (role : RoleRow) (row : SecretRow)
    (v : VersionRow) (p : Bytes)
    → ((t : ℕ) → w.env.fails t ≡ false)
    → secret_role id user w.db ≡ some role
    → at_least role.role member ≡ true
    → first (is_secret id) w.db.secrets ≡ some row
    → latest id w.db.versions ≡ some v
    → decrypt deps.keyring
        (some (sealed_of v))
        (aad_of deps row.project_id row.environment_id row.key)
      ≡ ok p
    → ((reveal deps user id actor w).0 ≡ ok (record (from_row row) { value = some p }))
      × ((reveal deps user id actor w).1.db ≡ w.db)
unfolding reveal require_secret_role get_workspace_role_by_secret require_role load_secret
    get_secret get_current_secret_version decrypt_version run on_error record_event ◌>>=◌ pure lift
reveal_returns deps user id actor w role row v p up found enough live current opens =
    let known = at_least-valid role.role member enough in
    (
      rw (up w.tick, found, known, enough, up _, live, up _, current, opens) refl,
      rw (up w.tick, found, known, enough, up _, live, up _, current, opens) refl,
    )

-- Over a cipher with the laws `IsAead`: after a `Create` that returned, from a sound history, a
-- `Reveal` of that secret on the tables that it left does return, if no statement of the `Reveal`
-- fails and its caller has at least the role of a member where the secret is: it returns the value
-- that the `Create` was given, and it changes no table.
pub reveal_returns-create :
    (deps : Deps) (aead : IsAead deps.keyring.cipher) (user_id reader : ℕ) (input : CreateInput)
    (actor : Actor) (w w' : World) (s : Secret) (role : RoleRow)
    → HasHistory w.db
    → (create deps user_id input w).0 ≡ ok s
    → (create deps user_id input w).1.db ≡ w'.db
    → ((t : ℕ) → w'.env.fails t ≡ false)
    → secret_role s.id reader w'.db ≡ some role
    → at_least role.role member ≡ true
    → (r : Secret) × ((reveal deps reader s.id actor w').0 ≡ ok r)
      × (r.value ≡ some input.value)
      × ((reveal deps reader s.id actor w').1.db ≡ w'.db)
reveal_returns-create deps aead user_id reader input actor w w' s role h created left up found
      enough =
    let (p, user, key, description, x, we, wt, enc, st, body, now) =
      (create-Yields deps user_id input w.db).at w s refl created in
    let (row, v, live, same_p, same_e, same_k, current, sealed) =
      subst (Stores s.id p input.environment_id key x) (sym now ∙ left) (
        create_tx-Stores user p input.environment_id key description x wt (subst HasHistory st h)
          body) in
    let round =
      decrypt-encrypt deps.keyring aead input.value (aad_of deps p input.environment_id key) we x
        enc in
    let opens : decrypt deps.keyring (some (sealed_of v))
          (aad_of deps row.project_id row.environment_id row.key)
        ≡ ok input.value =
      rw (same_p, same_e, same_k, sealed) round in
    let (shown, kept) =
      reveal_returns deps reader s.id actor w' role row v input.value up found enough live current
        opens in
    (record (from_row row) { value = some input.value }, shown, refl, kept)
