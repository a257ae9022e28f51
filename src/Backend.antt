-- ===== src/Backend.antt =====
-- server/service/backend: the CA service, which issues and revokes the certificates of the orgs.
pub mod Scope
pub mod Certs
pub mod Issuers
pub mod Profiles
pub mod Parents
pub mod Tests
