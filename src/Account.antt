-- ===== src/Account.antt =====
-- core/alpaca_account_lock.py: account names, the writer lock of one process and of many.
pub mod Name
pub mod Lock
