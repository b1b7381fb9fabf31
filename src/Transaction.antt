-- ===== src/Transaction.antt =====
-- transaction/: the lock table and the lock manager.
pub mod LockManager
pub mod LockTable
pub mod TxnManager
