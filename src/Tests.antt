-- ===== src/Tests.antt =====
-- Runs on small tables.
mod World
mod Crypto
mod Calls
mod Members
mod Promotions
mod Created
mod Roles
mod Tokens
mod Audit
mod Sessions
mod Accounts
mod Rotate
mod Projects
mod Workspaces
