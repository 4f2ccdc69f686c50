-- ===== src/HostBridge.antt =====
-- The privileged host process: internal/hostbridge.
pub mod Error
pub mod Db
pub mod Payment
pub mod Http
pub mod Message
pub mod Engine
pub mod Serve
pub mod Tests
