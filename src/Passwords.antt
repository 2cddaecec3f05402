-- ===== src/Passwords.antt =====
-- Passwords and their stored form (backend/internal/auth/password.go).
mod Defs
pub mod Fields
pub mod RoundTrip
unfoldable pub use Defs.*
