-- ===== src/Queries.antt =====
-- The statements of backend/internal/db/sqlcgen, over the tables of `Db`: what each reads, which
-- constraints it meets (backend/internal/db/migrations/000001_init.up.sql), and what it writes.
pub mod Secrets
pub mod Versions
pub mod Roles
pub mod Reads
pub mod Members
pub mod Projects
pub mod Rotation
pub mod Accounts
