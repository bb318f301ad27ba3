-- ===== src/Txn.antt =====
-- src/txn.rs: write batches, transactions and the lock table.
pub mod Batch
pub mod Transaction
pub mod Locks
