-- ===== src/HostBridge/Http.antt =====
-- The outgoing HTTP bridge: internal/hostbridge/http.go.
pub mod Providers
pub mod Net
pub mod Execute
pub mod Hosts
pub mod Clean
pub mod Signed
pub mod Confined
pub mod Public
pub mod Answer
