-- ===== src/Orgs.antt =====
-- server/service/orgs: the orgs service.
pub mod Common
pub mod Members
pub mod Projects
pub mod Accounts
pub mod Tests
