-- ===== src/Secrets/Lifecycle.antt =====
-- The value that `Update` is given and the value that `Reveal` shows
-- (backend/internal/service/secret.go).
use vaultly.Prelude.{
  ℕ, suc, ◌≡◌, ◌∙◌, sym, subst, ap, refl, true, some, ◌∷◌, Text, ℤ, is_nat, is_positive, first,
  Bool, false, Bool-cases, ◌⊎◌, inl, inr, arith,
}
use vaultly.Db.{Db, SecretRow, VersionRow, Bytes}
use vaultly.World.{World, ok, pure, Actor}
use vaultly.World.Returns.{bind-eq-ok}
use vaultly.Crypto.{Sealed, IsAead, encrypt, decrypt}
use vaultly.Crypto.RoundTrip.{decrypt-encrypt}
use vaultly.Queries.Versions.{latest}
use vaultly.Queries.Secrets.{is_secret}
use vaultly.Secrets.Numbers.{version_of}
use vaultly.Secrets.History.{HasHistory, bump-Moves}
use vaultly.Secrets.Effects.{Moves}
use vaultly.Secrets.Bumps.{Keeps, bump-Keeps, bump_was_expected}
use vaultly.Secrets.Latest.{latest_cons}
use vaultly.Secrets.Outcomes.{add_version-eq-ok, update-Yields, Revealed, reveal-Yields}
use vaultly.Secrets.Defs.{Deps, Secret, sealed_of, aad_of}
use vaultly.Secrets.Write.{UpdateInput, bump, add_version, update_tx, update}
use vaultly.Secrets.Read.{reveal}

-- A new version of a secret, from the tables before to the tables after.
pub record Advances (id n : ℕ) (x : Sealed) (d d' : Db) : Type 0 where
  pub count : n ≡ suc (version_of id d.secrets)
  pub pointer : version_of id d'.secrets ≡ n
  pub keeps : Keeps id d d'
  pub stored :
      (v : VersionRow) × (latest id d'.versions ≡ some v) × (v.version ≡ n) × (sealed_of v ≡ x)

Advances-of_Moves :
    (id n : ℕ) (x : Sealed) (d d' : Db) (v : VersionRow)
    → HasHistory d
    → n ≡ suc (version_of id d.secrets)
    → Moves id n d d'
    → Keeps id d d'
    → v.secret_id ≡ id
    → v.version ≡ n
    → sealed_of v ≡ x
    → Advances id n x d (record d' { versions = v ∷ d'.versions })
Advances-of_Moves id n x d d' v h count moves keeps same_id same_n same_x = record {
  count = count;
  pointer = let p = moves.pointer id in ground arith;
  keeps = keeps;
  stored = (
    v,
    rw moves.versions (
        latest_cons id (version_of id d.secrets) v d.versions same_id (same_n ∙ count)
          (h.counts id)),
    same_n,
    same_x,
  );
}

pub update_tx-Advances :
    (id : ℕ) (expected : ℤ) (user_id : ℕ) (x : Sealed) (comment : Text) (w : World) {n : ℕ}
    → HasHistory w.db
    → (update_tx id expected user_id x comment w).0 ≡ ok n
    → Advances id n x w.db (update_tx id expected user_id x comment w).1.db
      × (is_positive expected ≡ true → is_nat expected (version_of id w.db.secrets) ≡ true)
unfolding update_tx pure
update_tx-Advances id expected user_id x comment w {n} h e =
    let (m, bumped, rest, same) = bind-eq-ok (bump id expected user_id) _ w e in
    let w' = (bump id expected user_id w).1 in
    let (row, added, rest', same') = bind-eq-ok (add_version id m x comment user_id) _ w' rest in
    let (v, same_id, same_n, same_x, left) = add_version-eq-ok id m x comment user_id w' added in
    let (count, moves) = bump-Moves id expected user_id w h.unique bumped in
    let result : m ≡ n = cc in
    let after : (update_tx id expected user_id x comment w).1.db
        ≡ record w'.db { versions = v ∷ w'.db.versions } =
      ap (λ w. w.db) (same ∙ same') ∙ left in
    let advances =
      Advances-of_Moves id m x w.db w'.db v h count moves (bump-Keeps id expected user_id w bumped)
        same_id same_n same_x in
    (
      subst (λ n. Advances id n x w.db (update_tx id expected user_id x comment w).1.db) result
          (subst (Advances id m x w.db) (sym after) advances),
      bump_was_expected id expected user_id w h.unique bumped,
    )

-- What was sealed for a secret and stored as its current version is what a `Reveal` returns.
reads_back :
    (deps : Deps) (aead : IsAead deps.keyring.cipher) (id n : ℕ) (row : SecretRow) (x : Sealed)
    (value : Bytes) (we : World) (d d' : Db) (r : Secret) (e : Db)
    → first (is_secret id) d.secrets ≡ some row
    → (encrypt deps.keyring value (aad_of deps row.project_id row.environment_id row.key) we).0
      ≡ ok x
    → Advances id n x d d'
    → Revealed deps id d' r e
    → r.value ≡ some value
reads_back deps aead id n row x value we d d' r e found enc a
      (row', v', p, found', current', opened, shown, _) =
    let (row2, found2, same_p, same_e, same_k) = a.keeps row found in
    let (v, current, _, same_x) = a.stored in
    let same_row : row' ≡ row2 = cc in
    let same_v : v' ≡ v = cc in
    let round =
      decrypt-encrypt deps.keyring aead value
        (aad_of deps row.project_id row.environment_id row.key) we x enc in
    let same_aad : aad_of deps row'.project_id row'.environment_id row'.key
        ≡ aad_of deps row.project_id row.environment_id row.key =
      rw (same_row, same_p, same_e, same_k) refl in
    let opens : decrypt deps.keyring (some (sealed_of v'))
          (aad_of deps row'.project_id row'.environment_id row'.key)
        ≡ ok value =
      rw (same_aad, same_v, same_x) round in
    let same : p ≡ value = cc in rw (← same) shown

if_positive :
    (v : ℤ) (b : Bool) → (is_positive v ≡ true → b ≡ true) → (is_positive v ≡ false) ⊎ (b ≡ true)
if_positive v b h = elim (Bool-cases (is_positive v)) [ inl t ↦ inr (h t) | inr f ↦ inl f ]

module _ (deps : Deps) (user_id : ℕ) (input : UpdateInput) (w : World) (s : Secret)
    (h : HasHistory w.db) (returned : (update deps user_id input w).0 ≡ ok s) where
  -- Optimistic concurrency. An `Update` that returns, from a sound history, made the version after
  -- the one that was current; if the client named an expected version above zero, that was the
  -- current one; and the version it returns is current afterwards.
  pub update-Version :
      ((is_positive input.expected_version ≡ false)
        ⊎ (is_nat input.expected_version (version_of input.secret_id w.db.secrets) ≡ true))
      × (s.current_version ≡ suc (version_of input.secret_id w.db.secrets))
      × (version_of input.secret_id (update deps user_id input w).1.db.secrets ≡ s.current_version)
  update-Version =
      let (row, x, we, wt, n, found, enc, st, body, left, same) =
        (update-Yields deps user_id input w.db).at w s refl returned in
      let (a, expected) = update_tx-Advances _ _ _ _ _ wt (subst HasHistory st h) body in
      let id = input.secret_id in
      (
        subst
            (λ d.
              (is_positive input.expected_version ≡ false)
              ⊎ (is_nat input.expected_version (version_of id d.secrets) ≡ true))
            (sym st) (if_positive input.expected_version _ expected),
        same ∙ subst (λ d. n ≡ suc (version_of id d.secrets)) (sym st) a.count,
        ap (λ d. version_of id d.secrets) left ∙ a.pointer ∙ sym same,
      )

  -- Over a cipher with the laws `IsAead`: after an `Update` that returned, from a sound history, a
  -- `Reveal` of the secret, by anyone and on tables as the update left them, shows the value that the
  -- update was given, if it returns.
  pub reveal-update :
      (aead : IsAead deps.keyring.cipher) (reader : ℕ) (actor : Actor) (w' : World) (r : Secret)
      → (update deps user_id input w).1.db ≡ w'.db
      → (reveal deps reader input.secret_id actor w').0 ≡ ok r
      → r.value ≡ some input.value
  reveal-update aead reader actor w' r left' shown =
      let (row, x, we, wt, n, found, enc, st, body, left, same) =
        (update-Yields deps user_id input w.db).at w s refl returned in
      let (a, _) = update_tx-Advances _ _ _ _ _ wt (subst HasHistory st h) body in
      reads_back deps aead input.secret_id n row x input.value we wt.db w'.db r _
        (subst (λ d. first (is_secret input.secret_id) d.secrets ≡ some row) st found) enc
        (subst (Advances input.secret_id n x wt.db) (sym left ∙ left') a)
        ((reveal-Yields deps reader input.secret_id actor w'.db).at w' r refl shown)
