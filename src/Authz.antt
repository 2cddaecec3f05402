-- ===== src/Authz.antt =====
-- Who may do what (backend/internal/service/authz.go).
mod Defs
pub mod Laws
pub mod Denial
unfoldable pub use Defs.*
