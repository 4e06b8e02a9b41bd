-- ===== src/Lifecycle.antt =====
-- The lifecycle of modules, app/modulecatalog.
pub mod Versions
pub mod Replacement
pub mod Planner
pub mod Store
mod Tests
