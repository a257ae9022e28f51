-- ===== src/Tasks.antt =====
-- The scheduled tasks of server/tasks.
pub mod CertStatus
pub mod Tests
