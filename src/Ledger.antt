-- ===== src/Ledger.antt =====
-- internal/ledger: the state of the accounts, and the rules by which transactions change it.
pub mod State
pub mod Payment
pub mod Accounts
pub mod Blocks
