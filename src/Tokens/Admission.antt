-- ===== src/Tokens/Admission.antt =====
-- Which tokens are admitted, and from where (backend/internal/service/token.go,
-- backend/internal/domain/models.go).
use vaultly.Prelude.{
  ℕ, suc, ap, ◌∙◌, ◌≡◌, refl, true, none, some, List, Text, codes, text_eq, first, Option-cases,
  inl, inr, arith,
}
use vaultly.Db.{Db, Bytes, TokenRow, ProjectRow}
use vaultly.World.{World, Stamp, ok, run, on_error, Actor, stamp, advance, ◌>>=◌}
use vaultly.World.Respects.{
  Respects, Respects-check, Respects-record_event, Respects-run, respects_rules, sameness,
}
use vaultly.World.Returns.{check-eq-ok, query_next}
use vaultly.World.Yields.{Yields, Yields-quiet, Yields-pure, check_passed}
use vaultly.Queries.Roles.{is_project}
use vaultly.Queries.Reads.{IsRead, Changes-of_IsRead}
use vaultly.Secrets.{Deps}
use vaultly.Secrets.Preserve.{Respects-resolve_environment_values}
use vaultly.Tokens.Defs.{
  Net, TokenWithWorkspace, get_access_token_by_hash, AuthenticatedToken, access_token_from_row,
  before, active, has_scope, allows_ip, clock, unknown_token, well_formed, admit, authenticate,
  pull_secrets,
}

-- What the statement returns is a stored token of a live project.
abbrev IsStored : Bytes → Db → TokenWithWorkspace → Type 0
IsStored hash d f =
    (p : ProjectRow) × (first (λ t. text_eq t.token_hash hash) d.tokens ≡ some f.row)
    × (first (is_project f.row.project_id) d.projects ≡ some p)
    × (f.workspace_id ≡ p.workspace_id)

get_access_token_by_hash-eq-ok :
    (hash : Bytes) (st : Stamp) (d d' : Db) (f : TokenWithWorkspace)
    → get_access_token_by_hash hash st d ≡ ok (f, d')
    → IsStored hash d f × (d ≡ d')
unfolding get_access_token_by_hash
get_access_token_by_hash-eq-ok hash st d d' f h =
    elim (Option-cases (first (λ t. text_eq t.token_hash hash) d.tokens)) [
      | inl missing ↦ cc (rw (missing, get_access_token_by_hash) at h)
      | inr (t, e) ↦ elim (Option-cases (first (is_project t.project_id) d.projects)) [
        | inl gone ↦ cc (rw (e, gone, get_access_token_by_hash) at h)
        | inr (p, g) ↦
            let result : ok (record { row = t; workspace_id = p.workspace_id }, d) ≡ ok (f, d') =
              rw (e, g, get_access_token_by_hash) at h in
            let same_row : t ≡ f.row = cc in ((p, rw (← same_row) e, rw (← same_row) g, cc), cc)
      ]
    ]

get_access_token_by_hash-IsRead : (hash : Bytes) → IsRead (get_access_token_by_hash hash)
get_access_token_by_hash-IsRead hash = record {
  at = λ s d a d' e. (get_access_token_by_hash-eq-ok hash s d d' a e).1;
}

module _ (net : Net) where
  -- An admitted token at a time: stored under the digest of what was presented, of a live project, not
  -- revoked, not expired at the time, and allowed from the client's address.
  abbrev pub IsAdmitted : Text → net.Addr → ℕ → Db → AuthenticatedToken net → Type 0
  IsAdmitted plaintext ip now d a =
      (row : TokenRow) × (p : ProjectRow) × (first
          (λ t. text_eq t.token_hash (net.hash_token plaintext)) d.tokens
        ≡ some row)
      × (first (is_project row.project_id) d.projects ≡ some p)
      × (a.workspace_id ≡ p.workspace_id)
      × (a.token ≡ access_token_from_row net row)
      × (row.revoked_at ≡ none)
      × (before net now row.expires_at ≡ true)
      × (allows_ip net a.token ip ≡ true)

  Respects-token :
      (hash : Bytes)
      → Respects sameness (on_error (unknown_token net) (run (get_access_token_by_hash hash)))
  Respects-token hash =
      search (respects_rules, Respects-run, Changes-of_IsRead, get_access_token_by_hash-IsRead)

  Respects-clock : Respects sameness (clock net)
  Respects-clock = record { at = λ w. refl }

  not_revoked :
      (row : TokenRow) (now : ℕ)
      → active net (access_token_from_row net row) now ≡ true
      → (row.revoked_at ≡ none) × (before net now row.expires_at ≡ true)
  unfolding active access_token_from_row
  not_revoked row now h = elim (Option-cases row.revoked_at) [
    | inl e ↦ (e, ground arith)
    | inr (t, e) ↦ absurd (ground arith)
  ]

  -- What is behind the search and the clock, at a time.
  admit-Yields :
      (plaintext : Text) (ip : net.Addr) (now : ℕ) (d : Db) (f : TokenWithWorkspace)
      → IsStored (net.hash_token plaintext) d f
      → Yields d (admit net f ip now) (λ a d'. IsAdmitted plaintext ip now d a × (d' ≡ d))
  admit-Yields plaintext ip now d f (p, stored, project, same) =
      Yields-quiet d _ _ (Respects-check _) (λ wa _ _ live.
        Yields-quiet d _ _ (Respects-check _) (λ wi _ _ here.
          let (valid, fresh) =
            not_revoked f.row now
              (check_passed (active net (access_token_from_row net f.row) now) _ wa live) in
          Yields-pure _ _ (
            (
              f.row,
              p,
              stored,
              project,
              same,
              refl,
              valid,
              fresh,
              check_passed (allows_ip net (access_token_from_row net f.row) ip) _ wi here,
            ),
            refl,
          )))

  -- `Authenticate` returns only tokens that are admitted: stored under the digest of what was presented,
  -- of a live project and with its workspace, not revoked, not expired at the time that the clock shows
  -- after the search, and allowed from the client's address; and it changes no table.
  pub authenticate-IsAdmitted :
      (plaintext : Text) (ip : net.Addr) (w : World) (a : AuthenticatedToken net)
      → (authenticate net plaintext ip w).0 ≡ ok a
      → IsAdmitted plaintext ip (w.env.now (suc w.tick)) w.db a
        × ((authenticate net plaintext ip w).1.db ≡ w.db)
  unfolding authenticate ◌>>=◌
  authenticate-IsAdmitted plaintext ip w a h =
      let (searching, same) = check-eq-ok (well_formed net plaintext) _ w h in
      let (f, d, found, rest, same1) =
        query_next (unknown_token net) (get_access_token_by_hash (net.hash_token plaintext)) _ w
          searching in
      let (stored, kept) = get_access_token_by_hash-eq-ok _ (stamp w) w.db d f found in
      let (admitted, left) =
        (admit-Yields plaintext ip (w.env.now (suc w.tick)) w.db f stored).at
          (record (advance w) { db = d }) a kept rest in
      (admitted, ap (λ (w : World). w.db) (same ∙ same1) ∙ left)

  -- A `PullSecrets` that returns was asked with a token that has the scope to read, and it changes no
  -- table.
  pull_secrets-eq-ok :
      (deps : Deps) (t : AuthenticatedToken net) (actor : Actor) (w : World)
      (vs : List (Text × Bytes))
      → (pull_secrets net deps t actor w).0 ≡ ok vs
      → (has_scope net t.token (codes "secrets:read") ≡ true)
        × ((pull_secrets net deps t actor w).1.db ≡ w.db)
  unfolding pull_secrets
  pull_secrets-eq-ok deps t actor w vs h =
      let yields : Yields w.db (pull_secrets net deps t actor)
          (λ _ d'. (has_scope net t.token (codes "secrets:read") ≡ true) × (d' ≡ w.db)) =
        Yields-quiet w.db _ _ (Respects-check _) (λ wc _ _ passed.
          Yields-quiet w.db _ _ (Respects-resolve_environment_values deps _ _) (λ _ _ _ _.
            Yields-quiet w.db _ _ (Respects-record_event _) (λ _ _ _ _.
              Yields-pure _ _ (
                check_passed (has_scope net t.token (codes "secrets:read")) _ wc passed,
                refl,
              )))) in
      yields.at w vs refl h
