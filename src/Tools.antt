-- ===== src/Tools.antt =====
-- The commands for maintainers: cmd/registryctl, and the generators of releases.
pub mod Imports
pub mod Check
pub mod Names
pub mod Upgrade
pub mod Batch
mod Tests
