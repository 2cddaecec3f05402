-- ===== src/Workspaces.antt =====
-- Workspaces and their members (backend/internal/service/workspace.go).
pub mod Defs
mod Create
pub mod Count
pub mod Owners
pub mod Adding
pub mod Founding
unfoldable pub use Defs.*
unfoldable pub use Create.*
