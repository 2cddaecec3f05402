-- ===== src/Domain.antt =====
-- The domain package: roles, token scopes, errors and audit actions
-- (backend/internal/domain/models.go, backend/internal/domain/errors.go).
mod Roles
mod Errors
mod Actions
pub mod Order
unfoldable pub use Roles.*
unfoldable pub use Errors.*
unfoldable pub use Actions.*
