-- ===== src/Storage.antt =====
-- The storage engine of storage/src.
pub mod Memory
pub mod Page
pub mod Wal
pub mod Txn
pub mod Db
