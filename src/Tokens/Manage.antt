-- ===== src/Tokens/Manage.antt =====
-- The listing, the revocation and the bookkeeping of access tokens
-- (backend/internal/service/token.go, backend/internal/db/sqlcgen/tokens.sql.go).
use vaultly.Prelude.{
  ℕ, Bool, ◌&&◌, true, false, none, some, List, [], map, keep, first, update_where, ltb, ◌==◌,
  sort_with,
}
use vaultly.Domain.{admin, token_revoked}
use vaultly.Db.{TokenRow}
use vaultly.World.{
  Svc, Stmt, Outcome, ok, err, DbError, no_rows, pure, raise, ◌>>=◌, ◌>>◌, run, translated,
  translate_db_error, record_event, Actor,
}
use vaultly.World.Steps.{attempt}
use vaultly.Authz.{require_project_role, require_token_role}
use vaultly.Tokens.Defs.{Net, AccessToken, access_token_from_row}

-- `ListAccessTokens`
unfoldable pub list_access_tokens : ℕ → Stmt (List TokenRow)
list_access_tokens project_id st d = ok (
  sort_with (λ s t. ltb t.created_at s.created_at)
      (keep (λ t. t.project_id == project_id) d.tokens),
  d,
)

abbrev pub is_unrevoked : ℕ → TokenRow → Bool
is_unrevoked id t = t.id == id && elim t.revoked_at [ none ↦ true | some _ ↦ false ]

abbrev pub revoked_token : ℕ → TokenRow → TokenRow
revoked_token now t = record t { revoked_at = some now }

-- `RevokeAccessToken`
unfoldable pub revoke_access_token : ℕ → Stmt ℕ
revoke_access_token id st d = elim (first (is_unrevoked id) d.tokens) [
  | none ↦ err no_rows
  | some t ↦
      ok (
        t.id,
        record d { tokens = update_where (is_unrevoked id) (revoked_token st.time) d.tokens },
      )
]

-- `TouchAccessToken`
unfoldable pub touch_access_token : ℕ → Stmt (Unit {0})
touch_access_token id st d = ok (
  tt,
  record d {
    tokens =
        update_where (λ t. t.id == id) (λ t. record t { last_used_at = some st.time }) d.tokens;
  },
)

-- `TokenService.List`
unfoldable pub list_of_project : (net : Net) → ℕ → ℕ → Svc (List (AccessToken net))
list_of_project net user_id project_id = do
  require_project_role user_id project_id admin
  rows ← translated (run (list_access_tokens project_id))
  pure (map (access_token_from_row net) rows)

-- What `Revoke` does with the outcome of its statement: a token that is revoked already is a
-- success without an event.
abbrev pub revocation : ℕ → ℕ → Actor → Outcome DbError ℕ → Svc (Unit {0})
revocation workspace_id token_id actor (err no_rows) = pure tt
revocation workspace_id token_id actor (err e) = raise (translate_db_error e)
revocation workspace_id token_id actor (ok id) = record_event (record {
  workspace_id = workspace_id;
  actor = actor;
  action = token_revoked;
  resource_type = "token";
  resource_id = some token_id;
  metadata = [];
})

-- `TokenService.Revoke`
unfoldable pub revoke : ℕ → ℕ → Actor → Svc (Unit {0})
revoke user_id token_id actor = do
  scope ← require_token_role user_id token_id admin
  done ← attempt (run (revoke_access_token token_id))
  revocation scope.workspace_id token_id actor done

-- `Touch`
unfoldable pub touch : ℕ → Svc (Unit {0})
touch token_id = translated (run (touch_access_token token_id))
