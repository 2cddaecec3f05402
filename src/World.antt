-- ===== src/World.antt =====
-- What a service call runs against: the database, the audit queue and the outside world
-- (backend/internal/service/service.go).
mod Defs
pub mod Steps
pub mod Respects
pub mod Returns
pub mod Yields
pub mod Atomic
unfoldable pub use Defs.*
