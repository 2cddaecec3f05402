-- ===== src/Projects.antt =====
-- Projects and their environments (backend/internal/service/project.go).
mod Defs
pub mod Creation
unfoldable pub use Defs.*
