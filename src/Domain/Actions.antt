-- ===== src/Domain/Actions.antt =====
-- The audit actions (backend/internal/domain/models.go), one constructor for each stable string.
use vaultly.Prelude.{Text, codes}

pub data Action : Type 0 where
  user_registered user_logged_in user_logged_out : Action
  workspace_created member_added member_removed member_role_updated : Action
  project_created project_deleted environment_created : Action
  secret_created secret_updated secret_deleted secret_read secret_rolled_back : Action
  secrets_promoted secrets_pulled token_created token_revoked : Action

-- The stable string.
unfoldable pub action_text : Action → Text
action_text user_registered = codes "user.registered"
action_text user_logged_in = codes "user.logged_in"
action_text user_logged_out = codes "user.logged_out"
action_text workspace_created = codes "workspace.created"
action_text member_added = codes "member.added"
action_text member_removed = codes "member.removed"
action_text member_role_updated = codes "member.role_updated"
action_text project_created = codes "project.created"
action_text project_deleted = codes "project.deleted"
action_text environment_created = codes "environment.created"
action_text secret_created = codes "secret.created"
action_text secret_updated = codes "secret.updated"
action_text secret_deleted = codes "secret.deleted"
action_text secret_read = codes "secret.read"
action_text secret_rolled_back = codes "secret.rolled_back"
action_text secrets_promoted = codes "secrets.promoted"
action_text secrets_pulled = codes "secrets.pulled"
action_text token_created = codes "token.created"
action_text token_revoked = codes "token.revoked"
