-- ===== src/Secrets.antt =====
-- Secrets and their history (backend/internal/service/secret.go).
pub mod Defs
pub mod Write
pub mod Read
pub mod Numbers
pub mod Effects
pub mod History
pub mod Latest
pub mod Bumps
pub mod Outcomes
pub mod Lifecycle
pub mod Restored
pub mod Created
pub mod Readable
pub mod Preserve
unfoldable pub use Defs.*
unfoldable pub use Write.*
unfoldable pub use Read.*
