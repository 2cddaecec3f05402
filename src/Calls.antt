-- ===== src/Calls.antt =====
-- The service calls on secrets as one data type, and their runs
-- (backend/internal/service/secret.go, backend/internal/service/promotion.go).
mod Defs
pub mod Invariant
pub mod Access
pub mod Atomicity
unfoldable pub use Defs.*
