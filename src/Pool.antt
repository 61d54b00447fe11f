-- ===== src/Pool.antt =====
-- internal/dbpool
pub mod Database
pub mod Entries
pub mod Save
pub mod Wipe
pub mod Manage
