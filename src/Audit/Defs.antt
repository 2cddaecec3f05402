-- ===== src/Audit/Defs.antt =====
-- The statements on the audit log and the making of a row from an event
-- (backend/internal/service/audit.go, backend/internal/db/sqlcgen/audit.sql.go). `encoding/json`
-- and the unmapping of an address are parameters.
use vaultly.Prelude.{
  ℕ, Bool, true, false, ◌&&◌, ◌||◌, Option, none, some, List, [], ◌∷◌, ◌++◌, String, Text, codes,
  text_eq, map, any, first, keep, take, ltb, ◌==◌, if◌then◌else◌, sort_by,
}
use vaultly.Domain.{action_text}
use vaultly.Db.{Bytes, AuditRow, UserRow, TokenRow, Db}
use vaultly.World.{
  ok, err, unique_violation, foreign_key_violation, check_violation, Stmt, Stamp, Event, Meta,
}

pub record Codec : Type 0 where
  pub marshal : List (String × Meta) → Option Bytes
  pub unmarshal : Bytes → Option (List (String × Meta))
  pub unmap : ℕ → ℕ

pub record CreateAuditLogParams : Type 0 where
  pub workspace_id : ℕ
  pub action : Text
  pub resource_type : Text
  pub metadata : Bytes
  pub user_agent : Text
  pub actor_user_id : Option ℕ
  pub actor_token_id : Option ℕ
  pub resource_id : Option ℕ
  pub ip_address : Option ℕ

abbrev pub encoded : Codec → List (String × Meta) → Option Bytes
encoded c [] = some (codes "{}")
encoded c (m ∷ ms) = c.marshal (m ∷ ms)

abbrev pub unmapped : Codec → Option ℕ → Option ℕ
unmapped c none = none
unmapped c (some ip) = some (c.unmap ip)

-- `auditParams`: nothing, if the metadata cannot be encoded.
unfoldable pub audit_params : Codec → Event → Option CreateAuditLogParams
unfolding action_text
audit_params c e = elim (encoded c e.metadata) [
  | none ↦ none
  | some metadata ↦ some (record {
    workspace_id = e.workspace_id;
    action = action_text e.action;
    resource_type = codes e.resource_type;
    metadata = metadata;
    user_agent = e.actor.user_agent;
    actor_user_id = e.actor.user_id;
    actor_token_id = e.actor.token_id;
    resource_id = e.resource_id;
    ip_address = unmapped c e.actor.ip;
  })
]

abbrev pub new_audit_row : CreateAuditLogParams → Stamp → AuditRow
new_audit_row p st = record {
  id = st.uuid;
  workspace_id = p.workspace_id;
  actor_user_id = p.actor_user_id;
  actor_token_id = p.actor_token_id;
  action = p.action;
  resource_type = p.resource_type;
  resource_id = p.resource_id;
  metadata = p.metadata;
  ip_address = p.ip_address;
  user_agent = p.user_agent;
  created_at = st.time;
}

-- A nullable reference to a row.
abbrev pub refers : {A : Type 0} → (ℕ → A → Bool) → Option ℕ → List A → Bool
refers p none rows = true
refers p (some id) rows = any (p id) rows

abbrev pub both : Option ℕ → Option ℕ → Bool
both (some _) (some _) = true
both _ _ = false

-- `CreateAuditLog`, with the constraints of the table.
unfoldable pub create_audit_log : CreateAuditLogParams → Stmt (Unit {0})
create_audit_log p st d =
    if both p.actor_user_id p.actor_token_id
    then err check_violation
    else if any (λ r. r.id == st.uuid) d.audit_logs
    then err unique_violation
    else if any (λ w. w.id == p.workspace_id) d.workspaces
        && refers (λ id (u : UserRow). u.id == id) p.actor_user_id d.users
        && refers (λ id (t : TokenRow). t.id == id) p.actor_token_id d.tokens
    then ok (tt, record d { audit_logs = d.audit_logs ++ new_audit_row p st ∷ [] })
    else err foreign_key_violation

pub record ListAuditLogsParams : Type 0 where
  pub workspace_id : ℕ
  pub limit : ℕ
  pub action : Option Text
  pub actor_user_id : Option ℕ
  pub resource_type : Option Text
  pub resource_id : Option ℕ
  pub before_created_at : Option ℕ
  pub before_id : Option ℕ

pub record ListAuditLogsRow : Type 0 where
  pub row : AuditRow
  pub actor_email : Text
  pub actor_token_name : Text

abbrev pub is_text : Option Text → Text → Bool
is_text none t = true
is_text (some s) t = text_eq t s

abbrev pub is_id : Option ℕ → Option ℕ → Bool
is_id none v = true
is_id (some id) none = false
is_id (some id) (some v) = v == id

-- `(created_at, id) < (t, i)`, false where `i` is null and the times agree.
abbrev pub precedes : AuditRow → ℕ → Option ℕ → Bool
precedes r t none = ltb r.created_at t
precedes r t (some i) = ltb r.created_at t || (r.created_at == t && ltb r.id i)

abbrev pub is_before : Option ℕ → Option ℕ → AuditRow → Bool
is_before none i r = true
is_before (some t) i r = precedes r t i

-- The conditions of the feed but for the cursor.
abbrev pub matches : ListAuditLogsParams → AuditRow → Bool
matches p r =
    r.workspace_id == p.workspace_id
    && is_text p.action r.action
    && is_id p.actor_user_id r.actor_user_id
    && is_text p.resource_type r.resource_type
    && is_id p.resource_id r.resource_id

abbrev pub place : AuditRow → List AuditRow → List AuditRow
place r [] = r ∷ []
place r (q ∷ qs) = if precedes r q.created_at (some q.id) then q ∷ place r qs else r ∷ q ∷ qs

-- `ORDER BY created_at DESC, id DESC`
abbrev pub newest_first : List AuditRow → List AuditRow
newest_first [] = []
newest_first (r ∷ rs) = place r (newest_first rs)

abbrev pub email_of : Option ℕ → List UserRow → Text
email_of none users = []
email_of (some id) users = elim (first (λ u. u.id == id) users) [ none ↦ [] | some u ↦ u.email ]

abbrev pub token_name_of : Option ℕ → List TokenRow → Text
token_name_of none tokens = []
token_name_of (some id) tokens = elim (first (λ t. t.id == id) tokens) [
  | none ↦ []
  | some t ↦ t.name
]

-- The two joins.
abbrev pub joined : Db → AuditRow → ListAuditLogsRow
joined d r = record {
  row = r;
  actor_email = email_of r.actor_user_id d.users;
  actor_token_name = token_name_of r.actor_token_id d.tokens;
}

-- The rows of the feed behind the cursor, before the limit.
unfoldable pub feed : ListAuditLogsParams → Db → List AuditRow
feed p d =
    newest_first (keep (is_before p.before_created_at p.before_id) (keep (matches p) d.audit_logs))

-- `ListAuditLogs`
unfoldable pub list_audit_logs : ListAuditLogsParams → Stmt (List ListAuditLogsRow)
unfolding feed
list_audit_logs p st d = ok (map (joined d) (take p.limit (feed p d)), d)

-- Drops the text that is equal to the one before it.
abbrev pub distinct_from : Text → List Text → List Text
distinct_from s [] = []
distinct_from s (t ∷ ts) = let rest = distinct_from t ts in if text_eq s t then rest else t ∷ rest

abbrev pub distinct : List Text → List Text
distinct [] = []
distinct (t ∷ ts) = t ∷ distinct_from t ts

-- `ListAuditActions`
unfoldable pub list_audit_actions : ℕ → Stmt (List Text)
list_audit_actions workspace_id st d = ok (
  distinct (
      sort_by (λ t. t)
        (map (λ r. r.action) (keep (λ r. r.workspace_id == workspace_id) d.audit_logs))),
  d,
)
