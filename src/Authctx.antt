-- ===== src/Authctx.antt =====
-- internal/authctx: who a caller is, and what the caller may do.
pub mod Role
pub mod Scopes
pub mod Grants
pub mod Access
pub mod Authorizer
pub mod Members
pub mod Allowed
pub mod Tests
pub mod GrantsTests
