-- ===== src/Sessions.antt =====
-- Accounts and sessions (backend/internal/service/auth.go, backend/internal/auth/jwt.go,
-- backend/internal/auth/tokens.go).
mod Issuer
mod Defs
pub mod Rules
pub mod Lifetime
pub mod Login
pub mod Rotation
pub mod Registers
unfoldable pub use Issuer.*
unfoldable pub use Defs.*
