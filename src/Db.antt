-- ===== src/Db.antt =====
-- internal/db: the rows of the tenancy tables, and the statements on them.
pub mod Model
pub mod Cursor
pub mod Pages
pub mod Scopes
pub mod Tables
pub mod Tests
pub mod Tenants
