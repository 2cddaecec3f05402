-- ===== src/Audit.antt =====
-- The audit log: its statements, the recorder that writes it, and the pages that are read from it
-- (backend/internal/service/audit.go, backend/internal/db/sqlcgen/audit.sql.go).
mod Defs
pub mod Recorder
pub mod Queue
pub mod Refines
pub mod Drain
pub mod Feed
pub mod Order
pub mod Pages
unfoldable pub use Defs.*
