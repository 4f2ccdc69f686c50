-- ===== src/Registry/Tests.antt =====
-- The registry's theorems at concrete inputs.
pub mod Fixtures
pub mod Versions
pub mod Archives
pub mod Serving
