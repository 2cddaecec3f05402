-- ===== src/Validate.antt =====
-- The validators of backend/internal/service/helpers.go. A text is its code points; a length is
-- that of its UTF-8 bytes, as `len` counts.
mod Defs
unfoldable pub use Defs.*
