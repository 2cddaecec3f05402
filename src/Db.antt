-- ===== src/Db.antt =====
-- The database: the tables of backend/internal/db/sqlcgen/models.go as lists of rows, the newest
-- row first. Identifiers and points of time are numbers.
mod Rows
pub use Rows.*
