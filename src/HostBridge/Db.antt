-- ===== src/HostBridge/Db.antt =====
-- The database bridge: internal/hostbridge/db.go.
pub mod Sql
pub mod Params
pub mod Rows
pub mod Host
pub mod Change
pub mod Run
pub mod Handles
pub mod Ledger
pub mod Release
pub mod Transactions
pub mod Trail
pub mod Gate
pub mod Results
