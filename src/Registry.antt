-- ===== src/Registry.antt =====
-- The package registry: internal/registry.
pub mod Pattern
pub mod Semver
pub mod Catalog
pub mod Relative
pub mod Manifest
pub mod Archive
pub mod Handler
pub mod Tests
