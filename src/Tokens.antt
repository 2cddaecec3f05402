-- ===== src/Tokens.antt =====
-- Access tokens (backend/internal/service/token.go, backend/internal/auth/tokens.go).
pub mod Defs
mod Manage
pub mod Admission
pub mod Revocation
pub mod Allowlist
unfoldable pub use Defs.*
unfoldable pub use Manage.*
