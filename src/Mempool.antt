-- ===== src/Mempool.antt =====
-- internal/mempool: the pools of pending payments, account creates and account closes.
pub mod Pool
pub mod Requests
pub mod AccountCreates
pub mod AccountCloses
