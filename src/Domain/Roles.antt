-- ===== src/Domain/Roles.antt =====
-- `Role` and its order (backend/internal/domain/models.go). A stored role is any text, so one that
-- the system does not know keeps its text.
use vaultly.Prelude.{ℕ, Bool, true, false, String, ltb, leb, if◌then◌else◌}

pub data Role : Type 0 where
  owner admin member viewer : Role
  unknown : String → Role

unfoldable pub rank : Role → ℕ
rank viewer = 1
rank member = 2
rank admin = 3
rank owner = 4
rank (unknown s) = 0

unfoldable pub valid : Role → Bool
unfolding rank
valid r = ltb 0 (rank r)

unfoldable pub at_least : Role → Role → Bool
unfolding valid
at_least r other = if valid other then leb (rank other) (rank r) else false

unfoldable pub can_read_secret_values : Role → Bool
unfolding at_least
can_read_secret_values r = at_least r member

unfoldable pub can_write_secrets : Role → Bool
unfolding at_least
can_write_secrets r = at_least r member

unfoldable pub can_manage_tokens : Role → Bool
unfolding at_least
can_manage_tokens r = at_least r admin

unfoldable pub can_manage_members : Role → Bool
unfolding at_least
can_manage_members r = at_least r admin

unfoldable pub can_manage_workspace : Role → Bool
unfolding at_least
can_manage_workspace r = at_least r owner

-- The test `role == domain.RoleOwner`.
abbrev pub is_owner : Role → Bool
is_owner owner = true
is_owner _ = false
