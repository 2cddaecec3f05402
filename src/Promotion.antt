-- ===== src/Promotion.antt =====
-- Promotion of values along a project's environments (backend/internal/service/promotion.go).
pub mod Defs
pub mod Reports
pub mod Preserve
unfoldable pub use Defs.*
