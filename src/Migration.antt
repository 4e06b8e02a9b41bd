-- ===== src/Migration.antt =====
-- The migration lock, app/services/runtime/migrationlock/service.go.
pub mod Keys
pub mod Lock
mod Tests
