-- ===== src/HostBridge/Tests.antt =====
-- Runs of the models of internal/hostbridge, with the instances of the theorems.
pub mod Fixtures
pub mod Databases
pub mod Network
pub mod Streams
