-- ===== src/Db/Rows.antt =====
-- The rows of the tables, one record for each struct of backend/internal/db/sqlcgen/models.go.
-- An IP address is known by a number.
use vaultly.Prelude.{ℕ, Option, List, [], Text}
use vaultly.Domain.{Role}

abbrev pub Bytes : Type 0
Bytes = List ℕ

pub record UserRow : Type 0 where
  pub id : ℕ
  pub email : Text
  pub password_hash : Text
  pub name : Text
  pub created_at : ℕ
  pub updated_at : ℕ

pub record WorkspaceRow : Type 0 where
  pub id : ℕ
  pub name : Text
  pub slug : Text
  pub owner_id : ℕ
  pub created_at : ℕ
  pub updated_at : ℕ

pub record MemberRow : Type 0 where
  pub workspace_id : ℕ
  pub user_id : ℕ
  pub role : Role
  pub created_at : ℕ

pub record ProjectRow : Type 0 where
  pub id : ℕ
  pub workspace_id : ℕ
  pub name : Text
  pub slug : Text
  pub description : Text
  pub created_at : ℕ
  pub updated_at : ℕ
  pub deleted_at : Option ℕ

pub record EnvironmentRow : Type 0 where
  pub id : ℕ
  pub project_id : ℕ
  pub name : Text
  pub rank : ℕ
  pub created_at : ℕ
  pub updated_at : ℕ

pub record SecretRow : Type 0 where
  pub id : ℕ
  pub project_id : ℕ
  pub environment_id : ℕ
  pub key : Text
  pub description : Text
  pub current_version : ℕ
  pub created_at : ℕ
  pub updated_at : ℕ
  pub updated_by : Option ℕ
  pub deleted_at : Option ℕ

pub record VersionRow : Type 0 where
  pub id : ℕ
  pub secret_id : ℕ
  pub version : ℕ
  pub wrapped_dek : Bytes
  pub nonce : Bytes
  pub ciphertext : Bytes
  pub comment : Text
  pub created_at : ℕ
  pub created_by : Option ℕ

pub record TokenRow : Type 0 where
  pub id : ℕ
  pub project_id : ℕ
  pub environment_id : ℕ
  pub name : Text
  pub token_hash : Bytes
  pub prefix : Text
  pub scopes : List Text
  pub ip_allowlist : List Text
  pub rate_limit_rpm : ℕ
  pub expires_at : Option ℕ
  pub revoked_at : Option ℕ
  pub last_used_at : Option ℕ
  pub created_at : ℕ
  pub created_by : Option ℕ

pub record RefreshRow : Type 0 where
  pub id : ℕ
  pub user_id : ℕ
  pub token_hash : Bytes
  pub expires_at : ℕ
  pub revoked_at : Option ℕ
  pub created_at : ℕ
  pub user_agent : Text
  pub ip_address : Option ℕ

pub record AuditRow : Type 0 where
  pub id : ℕ
  pub workspace_id : ℕ
  pub actor_user_id : Option ℕ
  pub actor_token_id : Option ℕ
  pub action : Text
  pub resource_type : Text
  pub resource_id : Option ℕ
  pub metadata : Bytes
  pub ip_address : Option ℕ
  pub user_agent : Text
  pub created_at : ℕ

pub record Db : Type 0 where
  pub users : List UserRow
  pub refresh_tokens : List RefreshRow
  pub workspaces : List WorkspaceRow
  pub members : List MemberRow
  pub projects : List ProjectRow
  pub environments : List EnvironmentRow
  pub secrets : List SecretRow
  pub versions : List VersionRow
  pub tokens : List TokenRow
  pub audit_logs : List AuditRow

abbrev pub empty_db : Db
empty_db = record {
  users = [];
  refresh_tokens = [];
  workspaces = [];
  members = [];
  projects = [];
  environments = [];
  secrets = [];
  versions = [];
  tokens = [];
  audit_logs = [];
}
