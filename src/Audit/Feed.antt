-- ===== src/Audit/Feed.antt =====
-- The reading of the log, and the cursor of its pages (backend/internal/service/audit.go). The
-- encodings of the cursor, JSON and base64, are parameters.
use vaultly.Prelude.{
  ℕ, ◌+◌, Option, none, some, List, [], ◌∷◌, String, Text, length, map, take, ltb, if◌then◌else◌, ℤ,
  pos, negsuc,
}
use vaultly.Domain.{Error, viewer, new_validation_error}
use vaultly.Db.{Bytes}
use vaultly.World.{Svc, Outcome, ok, err, pure, ◌>>=◌, ◌>>◌, run, translated, Meta}
use vaultly.Authz.{require_workspace_role}
use vaultly.Audit.Defs.{
  Codec, ListAuditLogsParams, ListAuditLogsRow, list_audit_logs, list_audit_actions,
}

pub record AuditFilter : Type 0 where
  pub action : Text
  pub actor_user_id : Option ℕ
  pub resource_type : Text
  pub resource_id : Option ℕ
  pub before_created_at : Option ℕ
  pub before_id : Option ℕ
  pub limit : ℤ

pub record AuditEntry : Type 0 where
  pub id : ℕ
  pub workspace_id : ℕ
  pub actor_user_id : Option ℕ
  pub actor_email : Text
  pub actor_token_id : Option ℕ
  pub actor_token_nm : Text
  pub action : Text
  pub resource_type : Text
  pub resource_id : Option ℕ
  pub ip_address : Option ℕ
  pub user_agent : Text
  pub metadata : Option (List (String × Meta))
  pub created_at : ℕ

-- `NextCursor` as the pair that it encodes; none where it is empty.
pub record AuditPage : Type 0 where
  pub entries : List AuditEntry
  pub next_cursor : Text

-- The encodings of a cursor: `json.Marshal` with `base64Encode`, and back.
pub record CursorCodec : Type 0 where
  pub marshal : ℕ → ℕ → Option Bytes
  pub unmarshal : Bytes → Option (ℕ × ℕ)
  pub base64_encode : Bytes → Text
  pub base64_decode : Text → Option Bytes

abbrev pub optional : Text → Option Text
optional [] = none
optional (c ∷ s) = some (c ∷ s)

-- The default of 50 and the maximum of 200.
unfoldable pub page_limit : ℤ → ℕ
page_limit (negsuc n) = 50
page_limit (pos n) = if ltb 0 n then (if ltb 200 n then 200 else n) else 50

-- `EncodeAuditCursor`
unfoldable pub encode_audit_cursor : CursorCodec → ℕ → ℕ → Text
encode_audit_cursor k created_at id = elim (k.marshal created_at id) [
  | none ↦ []
  | some bytes ↦ k.base64_encode bytes
]

abbrev bad_cursor : Error
bad_cursor = new_validation_error "cursor" "is not a valid pagination cursor"

-- `DecodeAuditCursor`
unfoldable pub decode_audit_cursor : CursorCodec → Text → Outcome Error (Option ℕ × Option ℕ)
decode_audit_cursor k [] = ok (none, none)
decode_audit_cursor k (c ∷ s) = elim (k.base64_decode (c ∷ s)) [
  | none ↦ err bad_cursor
  | some raw ↦ elim (k.unmarshal raw) [
    | none ↦ err bad_cursor
    | some (created_at, id) ↦ ok (some created_at, some id)
  ]
]

abbrev decoded : Codec → Bytes → Option (List (String × Meta))
decoded c [] = none
decoded c (b ∷ bs) = c.unmarshal (b ∷ bs)

-- One round of the loop over the rows.
unfoldable pub entry_of : Codec → ListAuditLogsRow → AuditEntry
entry_of c r = record {
  id = r.row.id;
  workspace_id = r.row.workspace_id;
  actor_user_id = r.row.actor_user_id;
  actor_email = r.actor_email;
  actor_token_id = r.row.actor_token_id;
  actor_token_nm = r.actor_token_name;
  action = r.row.action;
  resource_type = r.row.resource_type;
  resource_id = r.row.resource_id;
  ip_address = r.row.ip_address;
  user_agent = r.row.user_agent;
  metadata = decoded c r.row.metadata;
  created_at = r.row.created_at;
}

-- The cursor behind the last entry.
abbrev pub cursor_behind : CursorCodec → List AuditEntry → Text
cursor_behind k [] = []
cursor_behind k (e ∷ []) = encode_audit_cursor k e.created_at e.id
cursor_behind k (e ∷ f ∷ es) = cursor_behind k (f ∷ es)

unfoldable pub page_of : Codec → CursorCodec → ℕ → List ListAuditLogsRow → AuditPage
unfolding entry_of encode_audit_cursor
page_of c k limit rows =
    if ltb limit (length rows)
    then record {
      entries = map (entry_of c) (take limit rows);
      next_cursor = cursor_behind k (map (entry_of c) (take limit rows));
    }
    else record { entries = map (entry_of c) rows; next_cursor = [] }

unfoldable pub list_params : ℕ → AuditFilter → ListAuditLogsParams
unfolding page_limit
list_params workspace_id filter = record {
  workspace_id = workspace_id;
  limit = page_limit filter.limit + 1;
  action = optional filter.action;
  actor_user_id = filter.actor_user_id;
  resource_type = optional filter.resource_type;
  resource_id = filter.resource_id;
  before_created_at = filter.before_created_at;
  before_id = filter.before_id;
}

-- `AuditService.List`
unfoldable pub list_audit : Codec → CursorCodec → ℕ → ℕ → AuditFilter → Svc AuditPage
unfolding page_of page_limit list_params
list_audit c k user_id workspace_id filter = do
  require_workspace_role user_id workspace_id viewer
  rows ← translated (run (list_audit_logs (list_params workspace_id filter)))
  pure (page_of c k (page_limit filter.limit) rows)

-- `AuditService.Actions`
unfoldable pub actions : ℕ → ℕ → Svc (List Text)
actions user_id workspace_id = do
  require_workspace_role user_id workspace_id viewer
  translated (run (list_audit_actions workspace_id))
