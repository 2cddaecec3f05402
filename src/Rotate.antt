-- ===== src/Rotate.antt =====
-- The rotation of the master key (backend/cmd/rotate-key/main.go).
mod Defs
pub mod Page
pub mod Sorted
pub mod Handles
pub mod Progress
pub mod Ends
pub mod Dry
pub mod Completes
unfoldable pub use Defs.*
