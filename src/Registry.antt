-- ===== src/Registry.antt =====
-- The registry of modules, app/modules: the order of modules by their dependencies, which modules
-- are switched off, and the registry that is made of both.
pub mod Sort
pub mod Disabled
pub mod Kernel
pub mod Catalog
mod Tests
