-- ===== src/Ca.antt =====
-- The CA: internal/ca publishes the CRLs of the issuers, over the CA tables of internal/db.
pub mod Rows
pub mod Errors
pub mod Store
pub mod Issuers
pub mod Expiry
pub mod Registry
pub mod Revocations
pub mod Crl
pub mod Tests
