-- ===== src/Db.antt =====
-- server/internal/db: the rows, the transactions, and one module of queries for each table.
pub mod Types
pub mod Tx
pub mod Products
pub mod Movements
pub mod Balances
pub mod ChangeLog
pub mod SyncOps
pub mod Auth
pub mod Snapshot
