-- ===== src/HostBridge/Engine.antt =====
-- Engine of internal/hostbridge/host.go, with InvokeNoqeriExtern of extern.go.
pub mod Defs
pub mod Walks
pub mod Replies
